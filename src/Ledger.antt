-- ===== src/Ledger.antt =====
-- internal/blockchain/chain.go, the loop of `AddBlock` over the transactions of a block: what each
-- kind of transaction does to the balances and the stakes, and what it marks for the database.
pub mod Balance
pub mod Changed
use devinsidercoin.Prelude.{ℕ, Option, none, some, List, [], ◌∷◌, foldl, Str, codes}
use devinsidercoin.Prelude.Dict.{Dict, lookup, insert, get_or}
use devinsidercoin.Prelude.Float64.{Float64}
use devinsidercoin.Block.{
  Transaction, TxOutput, TxType, coinbase, transfer, stake, unstake, pos_reward, other,
}
use devinsidercoin.Stakes.{Stakes, add_stake, remove_stake}
use devinsidercoin.Storage.Encoding.{Json}

-- The balances and stakes in memory, the changes for the database, and the amount minted so far.
pub record Effects (F : Type 0) : Type 0 where
  pub balances : Dict F
  pub stakes : Stakes F
  pub changed_balances : Dict F
  pub changed_stakes : Dict (Option (List ℕ))
  pub minted : F

module _ {F : Type 0} ⦃fl : Float64 F⦄ where
  -- `bc.Balances[address]`
  abbrev pub balance_of : Dict F → Str → F
  balance_of balances address = get_or balances address (fl.literal 0 0)

  -- `bc.Balances[address] = value` and `changedBalances[address] = value`
  unfoldable pub set_balance : Str → F → Effects F → Effects F
  set_balance address value e = record e {
    balances = insert address value e.balances;
    changed_balances = insert address value e.changed_balances;
  }

  -- One output of a coinbase or of a PoS reward.
  unfoldable pub credit_output : Effects F → TxOutput F → Effects F
  credit_output e out =
      let paid =
        set_balance out.address (fl.add (balance_of e.balances out.address) out.amount) e in
      record paid { minted = fl.add e.minted out.amount }

  unfoldable pub apply_mint : Transaction F → Effects F → Effects F
  apply_mint tx e = foldl credit_output e tx.outputs

  -- The two entries are marked with the balances after both updates.
  unfoldable pub apply_transfer : Transaction F → Effects F → Effects F
  apply_transfer tx e =
      let debited =
        insert tx.from (fl.sub (balance_of e.balances tx.from) (fl.add tx.amount tx.fee))
          e.balances in
      let credited = insert tx.to (fl.add (balance_of debited tx.to) tx.amount) debited in
      let marked = insert tx.from (balance_of credited tx.from) e.changed_balances in
      record e {
        balances = credited;
        changed_balances = insert tx.to (balance_of credited tx.to) marked;
      }

module _ {F : Type 0} ⦃fl : Float64 F⦄ ⦃js : Json F⦄ where
  -- A mark of `none` is nil: the stake is deleted from the database. The error of the encoding is
  -- dropped, and nil is marked then.
  unfoldable pub apply_stake : ℕ → Transaction F → Effects F → Effects F
  apply_stake height tx e =
      let paid = set_balance tx.from (fl.sub (balance_of e.balances tx.from) tx.amount) e in
      let stakes = add_stake tx.from tx.amount height e.stakes in
      let encoded : Option (List ℕ) = elim (lookup tx.from stakes) [
        | some s ↦ js.marshal_stake s
        | none ↦ some (codes "null")
      ] in
      record paid { stakes = stakes; changed_stakes = insert tx.from encoded e.changed_stakes }

  -- The errors of `RemoveStake` and of the encoding are dropped.
  unfoldable pub apply_unstake : Transaction F → Effects F → Effects F
  apply_unstake tx e =
      let stakes = (remove_stake tx.from tx.amount e.stakes).1 in
      let paid = set_balance tx.from (fl.add (balance_of e.balances tx.from) tx.amount) e in
      let encoded : Option (List ℕ) = elim (lookup tx.from stakes) [
        | some s ↦ js.marshal_stake s
        | none ↦ none
      ] in
      record paid { stakes = stakes; changed_stakes = insert tx.from encoded e.changed_stakes }

  unfoldable pub apply_kind : TxType → ℕ → Transaction F → Effects F → Effects F
  apply_kind coinbase height tx e = apply_mint tx e
  apply_kind pos_reward height tx e = apply_mint tx e
  apply_kind transfer height tx e = apply_transfer tx e
  apply_kind stake height tx e = apply_stake height tx e
  apply_kind unstake height tx e = apply_unstake tx e
  apply_kind (other name) height tx e = e

  unfoldable pub apply_transactions : ℕ → List (Transaction F) → Effects F → Effects F
  apply_transactions height [] e = e
  apply_transactions height (tx ∷ txs) e =
      apply_transactions height txs (apply_kind tx.type height tx e)
