-- ===== src/Chain/Mempool.antt =====
-- internal/blockchain/chain.go, `AddToMempool`: which transactions the mempool takes.
use devinsidercoin.Prelude.{
  ◌≡◌, ◌↔◌, refl, false, Option, none, some, inl, inr, Option-cases, [], ◌∷◌, ◌++◌, if◌then◌else◌,
  arith,
}
use devinsidercoin.Prelude.Float64.{Float64}
use devinsidercoin.Block.{
  Transaction, TxType, coinbase, transfer, stake, unstake, pos_reward, other,
}
use devinsidercoin.Stakes.{get_stake}
use devinsidercoin.Ledger.{balance_of}
use devinsidercoin.Chain.{Blockchain}

pub data MempoolError : Type 0 where
  insufficient_balance insufficient_available below_min_stake below_threshold : MempoolError

module _ {F : Type 0} ⦃fl : Float64 F⦄ {D : Type 0} where
  unfoldable pub refusal : TxType → Blockchain F D → Transaction F → Option MempoolError
  refusal transfer bc tx =
      if fl.lt (balance_of bc.balances tx.from) (fl.add tx.amount tx.fee)
      then some insufficient_balance
      else none
  refusal stake bc tx =
      let staked = get_stake tx.from bc.stakes in
      if fl.lt (fl.sub (balance_of bc.balances tx.from) staked) tx.amount
      then some insufficient_available
      else if fl.lt tx.amount bc.config.min_stake_amount
      then some below_min_stake
      else if fl.lt (fl.add staked tx.amount) bc.config.pos_min_threshold
      then some below_threshold
      else none
  refusal coinbase bc tx = none
  refusal unstake bc tx = none
  refusal pos_reward bc tx = none
  refusal (other name) bc tx = none

  -- The error, if any, and the state after the call.
  unfoldable pub add_to_mempool :
      Blockchain F D → Transaction F → Option MempoolError × Blockchain F D
  add_to_mempool bc tx = elim (refusal tx.type bc tx) [
    | some e ↦ (some e, bc)
    | none ↦ (none, record bc { mempool = bc.mempool ++ (tx ∷ []) })
  ]

  -- A transfer is covered by the sender's balance; a stake is covered by the balance less what is
  -- staked already, is not below the minimum, and brings the stake to the threshold. There is no
  -- condition on other transactions.
  abbrev pub IsAffordable : TxType → Blockchain F D → Transaction F → Type 0
  IsAffordable transfer bc tx =
      fl.lt (balance_of bc.balances tx.from) (fl.add tx.amount tx.fee) ≡ false
  IsAffordable stake bc tx =
      (fl.lt (fl.sub (balance_of bc.balances tx.from) (get_stake tx.from bc.stakes)) tx.amount
        ≡ false)
      × (fl.lt tx.amount bc.config.min_stake_amount ≡ false)
      × (fl.lt (fl.add (get_stake tx.from bc.stakes) tx.amount) bc.config.pos_min_threshold ≡ false)
  IsAffordable coinbase bc tx = Unit
  IsAffordable unstake bc tx = Unit
  IsAffordable pos_reward bc tx = Unit
  IsAffordable (other name) bc tx = Unit

  refusal_iff :
      (type : TxType) (bc : Blockchain F D) (tx : Transaction F)
      → (refusal type bc tx ≡ none) ↔ IsAffordable type bc tx
  unfolding refusal
  refusal_iff transfer bc tx = ground arith
  refusal_iff stake bc tx = ground arith
  refusal_iff coinbase bc tx = (λ e. tt, λ a. refl)
  refusal_iff unstake bc tx = (λ e. tt, λ a. refl)
  refusal_iff pos_reward bc tx = (λ e. tt, λ a. refl)
  refusal_iff (other name) bc tx = (λ e. tt, λ a. refl)

  -- What a call of `AddToMempool` has done, by how it ended.
  abbrev pub IsQueued :
      Blockchain F D → Transaction F → Option MempoolError × Blockchain F D → Type 0
  IsQueued bc tx (none, after) =
      IsAffordable tx.type bc tx × (after ≡ record bc { mempool = bc.mempool ++ (tx ∷ []) })
  IsQueued bc tx (some e, after) = (¬ IsAffordable tx.type bc tx) × (after ≡ bc)

  -- The mempool takes a transaction, at its end, exactly if the transaction is affordable for its
  -- type; otherwise there is an error and nothing changes.
  pub add_to_mempool-IsQueued :
      (bc : Blockchain F D) (tx : Transaction F) → IsQueued bc tx (add_to_mempool bc tx)
  unfolding add_to_mempool
  add_to_mempool-IsQueued bc tx =
      let verdict = refusal_iff tx.type bc tx in
      elim (Option-cases (refusal tx.type bc tx)) [
        | inl e ↦ rw (e, add_to_mempool) (verdict.0 e, refl)
        | inr (error, e) ↦ rw (e, add_to_mempool) (λ fine. cc (verdict.1 fine, e), refl)
      ]
