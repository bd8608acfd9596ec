-- ===== src/Rpc/Serve.antt =====
-- internal/rpc/server.go, `Start` and `withCORS`: which handler answers a request.
use devinsidercoin.Prelude.{ℕ, Option, List, Str, if◌then◌else◌}
use devinsidercoin.Prelude.Float64.{Float64}
use devinsidercoin.Storage.Database.{Bolt}
use devinsidercoin.Storage.Encoding.{Json}
use devinsidercoin.Wallet.{WalletJson, Ed25519}
use devinsidercoin.Rpc.{
  Server, Request, Route, rpc, wallet_create, wallet_list, wallet_backup, wallet_restore,
  wallet_send, wallet_balance, wallet_transactions, wallet_stake, wallet_unstake, chain_info,
  chain_block, unknown_path, Ambient, RpcJson, empty_ok, not_found, Outcome, answer, is_options,
}
use devinsidercoin.Rpc.Mining.{handle_rpc}
use devinsidercoin.Rpc.Info.{
  handle_wallet_list, handle_wallet_balance, handle_wallet_backup, handle_wallet_transactions,
  handle_chain_block, handle_chain_info,
}
use devinsidercoin.Rpc.Wallets.{
  handle_wallet_create, handle_wallet_restore, handle_wallet_send, handle_wallet_stake,
  handle_wallet_unstake,
}

module _ (sum256 : List ℕ → List ℕ) (base58 : List ℕ → Str) (ed : Ed25519)
    (write_file : Option (List ℕ) → List ℕ → Option (List ℕ)) {F : Type 0} ⦃fl : Float64 F⦄
    ⦃js : Json F⦄ ⦃rj : RpcJson F⦄ ⦃wj : WalletJson⦄ {D : Type 0} ⦃db : Bolt D⦄ where
  unfoldable pub handle_route : Route → Server F D → Request → Ambient → Outcome F D
  handle_route rpc s r env = handle_rpc sum256 s r.body env
  handle_route wallet_create s r env = handle_wallet_create write_file sum256 base58 s r env
  handle_route wallet_list s r env = handle_wallet_list s
  handle_route wallet_backup s r env = handle_wallet_backup s r
  handle_route wallet_restore s r env = handle_wallet_restore write_file s r
  handle_route wallet_send s r env = handle_wallet_send sum256 ed s r env
  handle_route wallet_balance s r env = handle_wallet_balance s r
  handle_route wallet_transactions s r env = handle_wallet_transactions s r
  handle_route wallet_stake s r env = handle_wallet_stake sum256 s r env
  handle_route wallet_unstake s r env = handle_wallet_unstake sum256 s r env
  handle_route chain_info s r env = handle_chain_info s
  handle_route chain_block s r env = handle_chain_block s r
  handle_route unknown_path s r env = answer s not_found

  unfoldable pub serve : Server F D → Request → Ambient → Outcome F D
  unfolding handle_route is_options
  serve s r env = if is_options r then answer s empty_ok else handle_route r.route s r env
