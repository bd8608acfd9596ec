-- ===== src/Ledger/Changed.antt =====
-- What is marked for the database is what has changed in memory.
use devinsidercoin.Prelude.{
  ℕ, ◌≡◌, refl, sym, ◌∙◌, ap, false, Option, none, some, inl, inr, Bool-cases, Option-cases, List,
  [], ◌∷◌, foldl, arith, Str, str_eq, str_eq_iff, str_eq_refl, codes,
}
use devinsidercoin.Prelude.Dict.{
  Dict, lookup, insert, lookup-insert, get_or-insert, IsDistinct, insert-IsDistinct,
}
use devinsidercoin.Prelude.Float64.{Float64}
use devinsidercoin.Block.{
  Transaction, TxOutput, TxType, coinbase, transfer, stake, unstake, pos_reward, other,
}
use devinsidercoin.Stakes.{
  Stake, Stakes, RemoveError, no_stake, insufficient_stake, add_stake, remove_stake,
}
use devinsidercoin.Stakes.Account.{lookup-add_stake, remove_stake-IsRemoval, IsRemoval}
use devinsidercoin.Storage.Encoding.{Json}
use devinsidercoin.Storage.Write.{overwritten}
use devinsidercoin.Ledger.{
  Effects, balance_of, set_balance, credit_output, apply_mint, apply_transfer, apply_stake,
  apply_unstake, apply_kind, apply_transactions,
}

-- A changed value, or else the old one.
abbrev pub or_else {ℓ} : {V : Type ℓ} → Option V → Option V → Option V
or_else none old = old
or_else (some v) old = some v

module _ {F : Type 0} ⦃fl : Float64 F⦄ ⦃js : Json F⦄ where
  -- A stake as the database holds it; one that has no encoding is not in the database.
  abbrev pub encoded : Option (Stake F) → Option (List ℕ)
  encoded none = none
  encoded (some s) = js.marshal_stake s

  -- The changes, laid over the balances and stakes at the start of the block, are those at its end.
  pub record IsTracked (old : Dict F) (old_stakes : Stakes F) (e : Effects F) : Type 0 where
    pub balances_at :
        (a : Str) → lookup a e.balances ≡ or_else (lookup a e.changed_balances) (lookup a old)
    pub stakes_at :
        (a : Str)
        → encoded (lookup a e.stakes)
          ≡ overwritten (lookup a e.changed_stakes) (encoded (lookup a old_stakes))
    pub balances_map : IsDistinct e.changed_balances
    pub stakes_map : IsDistinct e.changed_stakes

  module _ (old : Dict F) (old_stakes : Stakes F) where
    set_balance-IsTracked :
        (k : Str) (v : F) (e : Effects F)
        → IsTracked old old_stakes e
        → IsTracked old old_stakes (set_balance k v e)
    unfolding set_balance
    set_balance-IsTracked k v e t = record {
      balances_at = λ a. ground (
        arith,
        t.balances_at a,
        lookup-insert k a v e.balances,
        lookup-insert k a v e.changed_balances,
      );
      stakes_at = t.stakes_at;
      balances_map = insert-IsDistinct k v e.changed_balances t.balances_map;
      stakes_map = t.stakes_map;
    }

    apply_mint-IsTracked :
        (outputs : List (TxOutput F)) (e : Effects F)
        → IsTracked old old_stakes e
        → IsTracked old old_stakes (foldl credit_output e outputs)
    unfolding credit_output
    apply_mint-IsTracked [] e t = t
    apply_mint-IsTracked (out ∷ outputs) e t =
        let paid =
          set_balance-IsTracked out.address (fl.add (balance_of e.balances out.address) out.amount)
            e t in
        apply_mint-IsTracked outputs (credit_output e out) (record {
          balances_at = paid.balances_at;
          stakes_at = paid.stakes_at;
          balances_map = paid.balances_map;
          stakes_map = paid.stakes_map;
        })

    apply_transfer-IsTracked :
        (tx : Transaction F) (e : Effects F)
        → IsTracked old old_stakes e
        → IsTracked old old_stakes (apply_transfer tx e)
    unfolding apply_transfer
    apply_transfer-IsTracked tx e t =
        let zero_value = fl.literal 0 0 in
        let sent = fl.sub (balance_of e.balances tx.from) (fl.add tx.amount tx.fee) in
        let debited = insert tx.from sent e.balances in
        let received = fl.add (balance_of debited tx.to) tx.amount in
        let after = insert tx.to received debited in
        let marked = insert tx.from (balance_of after tx.from) e.changed_balances in
        record {
          balances_at = λ a. ground (
            arith,
            t.balances_at a,
            str_eq_iff tx.from a,
            str_eq_iff tx.to a,
            str_eq_iff tx.to tx.from,
            str_eq_refl tx.to,
            str_eq_refl tx.from,
            lookup-insert tx.to a received debited,
            lookup-insert tx.from a sent e.balances,
            lookup-insert tx.to a (balance_of after tx.to) marked,
            lookup-insert tx.from a (balance_of after tx.from) e.changed_balances,
            get_or-insert tx.to tx.to received zero_value debited,
            get_or-insert tx.to tx.from received zero_value debited,
            get_or-insert tx.from tx.from sent zero_value e.balances,
          );
          stakes_at = t.stakes_at;
          balances_map = insert-IsDistinct tx.to (balance_of after tx.to) marked (
              insert-IsDistinct tx.from (balance_of after tx.from) e.changed_balances
                t.balances_map);
          stakes_map = t.stakes_map;
        }

    mark_stake-IsTracked :
        (k : Str) (mark : Option (List ℕ)) (new : Stakes F) (e : Effects F)
        → IsTracked old old_stakes e
        → ((a : Str) → str_eq k a ≡ false → lookup a new ≡ lookup a e.stakes)
        → mark ≡ encoded (lookup k new)
        → IsTracked old old_stakes
            (record e { stakes = new; changed_stakes = insert k mark e.changed_stakes })
    mark_stake-IsTracked k mark new e t others here = record {
      balances_at = t.balances_at;
      stakes_at = λ a. elim (Bool-cases (str_eq k a)) [
        | inl same ↦
            rw (lookup-insert k a mark e.changed_stakes, same, ← (str_eq_iff k a).0 same) (sym here)
        | inr apart ↦
            rw (lookup-insert k a mark e.changed_stakes, apart, others a apart) (t.stakes_at a)
      ];
      balances_map = t.balances_map;
      stakes_map = insert-IsDistinct k mark e.changed_stakes t.stakes_map;
    }

    remove_stake_others :
        (k : Str) (x : F) (stakes : Stakes F) (r : Option RemoveError × Stakes F)
        → IsRemoval k x stakes r
        → (a : Str) → str_eq k a ≡ false
        → lookup a r.1 ≡ lookup a stakes
    remove_stake_others k x stakes (some no_stake, after) h a apart = ap (lookup a) h.1
    remove_stake_others k x stakes (some insufficient_stake, after) h a apart = ap (lookup a) h.3
    remove_stake_others k x stakes (none, after) h a apart = h.3 a ∙ rw apart

    add_stake_present :
        (k : Str) (x : F) (height : ℕ) (stakes : Stakes F)
        → (s : Stake F) × (lookup k (add_stake k x height stakes) ≡ some s)
    add_stake_present k x height stakes = elim (Option-cases (lookup k stakes)) [
      | inl e ↦ (
        record { address = k; amount = x; block_height = height },
        lookup-add_stake k k x height stakes ∙ rw (str_eq_refl k, e),
      )
      | inr (s, e) ↦ (
        record s { amount = fl.add s.amount x },
        lookup-add_stake k k x height stakes ∙ rw (str_eq_refl k, e),
      )
    ]

    marked_present :
        (o : Option (Stake F))
        → (s : Stake F) × (o ≡ some s)
        → ◌≡◌ {A = Option (List ℕ)}
            (elim o [ some s ↦ js.marshal_stake s | none ↦ some (codes "null") ])
            (encoded o)
    marked_present none h = cc (h.1)
    marked_present (some s) h = refl

    apply_stake-IsTracked :
        (height : ℕ) (tx : Transaction F) (e : Effects F)
        → IsTracked old old_stakes e
        → IsTracked old old_stakes (apply_stake height tx e)
    unfolding apply_stake set_balance
    apply_stake-IsTracked height tx e t =
        let paid = fl.sub (balance_of e.balances tx.from) tx.amount in
        let new = add_stake tx.from tx.amount height e.stakes in
        mark_stake-IsTracked tx.from
          (elim (lookup tx.from new) [ some s ↦ js.marshal_stake s | none ↦ some (codes "null") ])
          new (set_balance tx.from paid e) (set_balance-IsTracked tx.from paid e t)
          (λ a apart. lookup-add_stake tx.from a tx.amount height e.stakes ∙ rw apart)
          (marked_present (lookup tx.from new)
            (add_stake_present tx.from tx.amount height e.stakes))

    marked_or_deleted :
        (o : Option (Stake F))
        → ◌≡◌ {A = Option (List ℕ)}
            (elim o [ some s ↦ js.marshal_stake s | none ↦ none ])
            (encoded o)
    marked_or_deleted none = refl
    marked_or_deleted (some s) = refl

    apply_unstake-IsTracked :
        (tx : Transaction F) (e : Effects F)
        → IsTracked old old_stakes e
        → IsTracked old old_stakes (apply_unstake tx e)
    unfolding apply_unstake set_balance
    apply_unstake-IsTracked tx e t =
        let paid = fl.add (balance_of e.balances tx.from) tx.amount in
        let removal = remove_stake tx.from tx.amount e.stakes in
        mark_stake-IsTracked tx.from
          (elim (lookup tx.from removal.1) [ some s ↦ js.marshal_stake s | none ↦ none ]) removal.1
          (set_balance tx.from paid e) (set_balance-IsTracked tx.from paid e t)
          (remove_stake_others tx.from tx.amount e.stakes removal
            (remove_stake-IsRemoval tx.from tx.amount e.stakes))
          (marked_or_deleted (lookup tx.from removal.1))

    apply_kind-IsTracked :
        (type : TxType) (height : ℕ) (tx : Transaction F) (e : Effects F)
        → IsTracked old old_stakes e
        → IsTracked old old_stakes (apply_kind type height tx e)
    unfolding apply_kind apply_mint
    apply_kind-IsTracked coinbase height tx e t = apply_mint-IsTracked tx.outputs e t
    apply_kind-IsTracked pos_reward height tx e t = apply_mint-IsTracked tx.outputs e t
    apply_kind-IsTracked transfer height tx e t = apply_transfer-IsTracked tx e t
    apply_kind-IsTracked stake height tx e t = apply_stake-IsTracked height tx e t
    apply_kind-IsTracked unstake height tx e t = apply_unstake-IsTracked tx e t
    apply_kind-IsTracked (other name) height tx e t = t

    -- If the marked changes, laid over the balances and the encoded stakes at the start of the block,
    -- give those in memory, they still do after any transactions. A stake that has no encoding is marked
    -- as deleted, as if it were not in memory.
    pub apply_transactions-IsTracked :
        (height : ℕ) (txs : List (Transaction F)) (e : Effects F)
        → IsTracked old old_stakes e
        → IsTracked old old_stakes (apply_transactions height txs e)
    unfolding apply_transactions
    apply_transactions-IsTracked height [] e t = t
    apply_transactions-IsTracked height (tx ∷ txs) e t =
        apply_transactions-IsTracked height txs (apply_kind tx.type height tx e)
          (apply_kind-IsTracked tx.type height tx e t)
