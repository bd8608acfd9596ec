-- ===== src/Rpc/Wallets.antt =====
-- internal/rpc/server.go: the REST requests that change the wallets or queue a transaction.
use devinsidercoin.Prelude.{ℕ, Bool, ◌||◌, Option, none, some, List, [], Str, if◌then◌else◌}
use devinsidercoin.Prelude.Int.{ℤ}
use devinsidercoin.Prelude.Float64.{Float64}
use devinsidercoin.Block.{
  Transaction, TxType, stake, unstake, compute_tx_id, new_transfer_transaction,
}
use devinsidercoin.Storage.Encoding.{Json}
use devinsidercoin.Chain.{Blockchain}
use devinsidercoin.Chain.Mempool.{MempoolError, add_to_mempool}
use devinsidercoin.Node.{Node, broadcast_tx}
use devinsidercoin.Wallet.{
  Added, added, not_added, map_panics, WalletManager, WalletJson, Ed25519, Signed, signature,
  not_found, sign_panics, create_wallet, restore, sign,
}
use devinsidercoin.Rpc.{
  Server, Request, Ambient, SendRequest, StakeRequest, RpcJson, post_required,
  key_generation_failed, bad_wallet, invalid_body, fields_required, cannot_sign, mempool_refused,
  RestResult, created, restored, sent_pending, pending, json_ok, json_err, aborted, Outcome, answer,
  is_post, is_blank,
}

module _ {F D : Type 0} where
  -- The answer of `CreateWallet`; net/http recovers a panic.
  abbrev pub answer_created : Server F D → Added × WalletManager → Outcome F D
  answer_created s (map_panics, wm) = answer (record s { wallets = wm }) aborted
  answer_created s (not_added, wm) =
      answer (record s { wallets = wm }) (json_err 500 key_generation_failed)
  answer_created s (added w, wm) =
      answer (record s { wallets = wm }) (json_ok (created w.address w.public_key))

  -- The answer of `Restore`.
  abbrev pub answer_restored : Server F D → Added × WalletManager → Outcome F D
  answer_restored s (map_panics, wm) = answer (record s { wallets = wm }) aborted
  answer_restored s (not_added, wm) = answer (record s { wallets = wm }) (json_err 400 bad_wallet)
  answer_restored s (added w, wm) =
      answer (record s { wallets = wm }) (json_ok (restored w.address))

module _ (write_file : Option (List ℕ) → List ℕ → Option (List ℕ)) ⦃wj : WalletJson⦄
    {F D : Type 0} where
  unfoldable pub handle_wallet_create :
      (List ℕ → List ℕ) → (List ℕ → Str) → Server F D → Request → Ambient → Outcome F D
  unfolding is_post
  handle_wallet_create sum256 base58 s r env =
      if is_post r
      then answer_created s (create_wallet write_file sum256 base58 env.keys s.wallets)
      else answer s (json_err 405 post_required)

  unfoldable pub handle_wallet_restore : Server F D → Request → Outcome F D
  unfolding is_post
  handle_wallet_restore s r =
      if is_post r
      then answer_restored s (restore write_file r.body s.wallets)
      else answer s (json_err 405 post_required)

module _ {F : Type 0} ⦃js : Json F⦄ {D : Type 0} where
  -- The end of the handlers that queue a transaction, after `AddToMempool`.
  abbrev pub queued :
      Server F D → Transaction F → RestResult F → Option MempoolError × Blockchain F D → Outcome F D
  queued s tx result (some e, chain) =
      answer (record s { node = record s.node { chain = chain } })
        (json_err 400 (mempool_refused e))
  queued s tx result (none, chain) =
      let node : Node F D = record s.node { chain = chain } in
      (json_ok result, record s { node = node }, broadcast_tx node tx)

module _ {F : Type 0} ⦃fl : Float64 F⦄ where
  unfoldable pub is_incomplete : SendRequest F → Bool
  unfolding is_blank
  is_incomplete req = is_blank req.from || is_blank req.to || fl.le req.amount (fl.literal 0 0)

module _ (sum256 : List ℕ → List ℕ) {F : Type 0} ⦃fl : Float64 F⦄ ⦃js : Json F⦄ where
  -- The fee is 0.001.
  abbrev pub transfer_of : SendRequest F → Str → ℤ → Transaction F
  transfer_of req sig now =
      new_transfer_transaction sum256 js.marshal_core req.from req.to req.amount (fl.literal 1 3)
        sig now

  -- The transaction of a request to stake or to unstake.
  unfoldable pub stake_transaction : TxType → StakeRequest F → ℤ → Transaction F
  stake_transaction type req now =
      let tx : Transaction F = record {
        tx_id = [];
        type = type;
        from = req.address;
        to = [];
        amount = req.amount;
        fee = fl.literal 0 0;
        timestamp = now;
        signature = [];
        outputs = [];
      } in
      record tx { tx_id = compute_tx_id sum256 js.marshal_core tx }

module _ (sum256 : List ℕ → List ℕ) {F : Type 0} ⦃fl : Float64 F⦄ ⦃js : Json F⦄ ⦃rj : RpcJson F⦄
    {D : Type 0} where
  -- `handleWalletSend` after `Sign`.
  unfoldable pub signed : Server F D → SendRequest F → ℤ → Signed → Outcome F D
  signed s req now not_found = answer s (json_err 400 cannot_sign)
  signed s req now sign_panics = answer s aborted
  signed s req now (signature sig) =
      let tx = transfer_of sum256 req sig now in
      queued s tx (sent_pending tx) (add_to_mempool s.node.chain tx)

  unfoldable pub handle_wallet_send : Ed25519 → Server F D → Request → Ambient → Outcome F D
  unfolding is_post signed is_incomplete
  handle_wallet_send ed s r env =
      if is_post r
      then elim (rj.unmarshal_send r.body) [
        | none ↦ answer s (json_err 400 invalid_body)
        | some req ↦
            if is_incomplete req
            then answer s (json_err 400 fields_required)
            else signed s req env.second_now
                (sign ed req.from (rj.transfer_text req.from req.to req.amount env.now) s.wallets)
      ]
      else answer s (json_err 405 post_required)

  -- The handlers of staking after the body has been read.
  unfoldable pub take_staking : TxType → Server F D → StakeRequest F → ℤ → Outcome F D
  unfolding is_blank stake_transaction
  take_staking type s req now =
      if is_blank req.address || fl.le req.amount (fl.literal 0 0)
      then answer s (json_err 400 fields_required)
      else let tx = stake_transaction sum256 type req now in
        queued s tx (pending tx.tx_id) (add_to_mempool s.node.chain tx)

  -- `handleWalletStake` and `handleWalletUnstake`, which differ in the type.
  unfoldable pub handle_staking : TxType → Server F D → Request → Ambient → Outcome F D
  unfolding is_post take_staking
  handle_staking type s r env =
      if is_post r
      then take_staking type s (rj.fill_stake r.body) env.now
      else answer s (json_err 405 post_required)

  unfoldable pub handle_wallet_stake : Server F D → Request → Ambient → Outcome F D
  unfolding handle_staking
  handle_wallet_stake s r env = handle_staking stake s r env

  unfoldable pub handle_wallet_unstake : Server F D → Request → Ambient → Outcome F D
  unfolding handle_staking
  handle_wallet_unstake s r env = handle_staking unstake s r env
