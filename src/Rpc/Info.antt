-- ===== src/Rpc/Info.antt =====
-- internal/rpc/server.go: the REST requests that only read.
use devinsidercoin.Prelude.{none, some, map, Str, codes, if◌then◌else◌}
use devinsidercoin.Prelude.Float64.{Float64}
use devinsidercoin.Stakes.{get_stake}
use devinsidercoin.Storage.Database.{Bolt}
use devinsidercoin.Storage.Encoding.{Json}
use devinsidercoin.Ledger.{balance_of}
use devinsidercoin.Chain.Queries.{get_transactions, find_block}
use devinsidercoin.Wallet.{WalletJson, backup, list_wallets}
use devinsidercoin.Rpc.{
  Server, Request, WalletInfo, address_required, wallet_not_found, block_not_found, hash_required,
  wallet_infos, balance_info, transactions, chain_info, block_found, json_ok, json_err, attachment,
  Outcome, answer, is_blank,
}
use devinsidercoin.Rpc.Mining.{hash_of, get_mining_info}

module _ {F : Type 0} ⦃fl : Float64 F⦄ {D : Type 0} where
  abbrev pub wallet_info : Server F D → Str → WalletInfo F
  wallet_info s address = record {
    address = address;
    balance = balance_of s.node.chain.balances address;
    staked = get_stake address s.node.chain.stakes;
  }

  unfoldable pub handle_wallet_list : Server F D → Outcome F D
  unfolding list_wallets
  handle_wallet_list s =
      answer s (json_ok (wallet_infos (map (wallet_info s) (list_wallets s.wallets))))

  unfoldable pub handle_wallet_balance : Server F D → Request → Outcome F D
  unfolding is_blank
  handle_wallet_balance s r =
      let address = r.query (codes "address") in
      if is_blank address
      then answer s (json_err 400 address_required)
      else let info = wallet_info s address in
        answer s (json_ok (balance_info info (fl.sub info.balance info.staked)))

module _ {F D : Type 0} ⦃wj : WalletJson⦄ where
  unfoldable pub handle_wallet_backup : Server F D → Request → Outcome F D
  unfolding is_blank
  handle_wallet_backup s r =
      let address = r.query (codes "address") in
      if is_blank address
      then answer s (json_err 400 address_required)
      else elim (backup address s.wallets) [
        | none ↦ answer s (json_err 404 wallet_not_found)
        | some content ↦ answer s (attachment content)
      ]

module _ {F : Type 0} ⦃js : Json F⦄ {D : Type 0} ⦃db : Bolt D⦄ where
  unfoldable pub handle_wallet_transactions : Server F D → Request → Outcome F D
  unfolding is_blank
  handle_wallet_transactions s r =
      let address = r.query (codes "address") in
      if is_blank address
      then answer s (json_err 400 address_required)
      else answer s (json_ok (transactions (get_transactions address s.node.chain)))

  unfoldable pub handle_chain_block : Server F D → Request → Outcome F D
  unfolding is_blank
  handle_chain_block s r =
      let hash = r.query (codes "hash") in
      if is_blank hash
      then answer s (json_err 400 hash_required)
      else elim (find_block hash s.node.chain) [
        | none ↦ answer s (json_err 404 block_not_found)
        | some block ↦ answer s (json_ok (block_found block))
      ]

module _ {F : Type 0} ⦃fl : Float64 F⦄ {D : Type 0} ⦃db : Bolt D⦄ where
  unfoldable pub handle_chain_info : Server F D → Outcome F D
  unfolding get_mining_info
  handle_chain_info s = answer s (
      json_ok (
        chain_info (record {
          name = s.node.chain.config.name;
          ticker = s.node.chain.config.ticker;
          best_hash = hash_of s.node.chain.last_block;
          mining = get_mining_info s.node;
        })))
