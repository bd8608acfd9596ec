-- ===== src/Chain/Start/Restart.antt =====
-- A start on the database of an earlier run.
use devinsidercoin.Prelude.{
  ℕ, ◌≡◌, refl, sym, ap, ◌∙◌, Bool-cases, Option, none, some, inl, inr, Option-cases, List, [], ◌∷◌,
  Str, str_eq, str_eq_iff, true,
}
use devinsidercoin.Prelude.Int.{ℤ, to_word64}
use devinsidercoin.Prelude.Dict.{Dict, lookup, insert, lookup-insert, IsDistinct}
use devinsidercoin.Prelude.Float64.{Float64}
use devinsidercoin.Stakes.{Stake, Stakes}
use devinsidercoin.Storage.Database.{Bolt, IsBolt}
use devinsidercoin.Storage.Encoding.{Json}
use devinsidercoin.Storage.Listing.{
  as_float, lookup-get_all_balances, lookup-get_all_stakes_raw, get_all_stakes_raw-IsDistinct,
}
use devinsidercoin.Storage.Reads.{best-count}
use devinsidercoin.Storage.{
  has_data, get_best_height, get_all_stakes_raw, get_total_minted, bytes_to_float, float_to_bytes,
}
use devinsidercoin.Ledger.Changed.{encoded}
use devinsidercoin.Chain.Agree.{Agrees, stored}
use devinsidercoin.Chain.Linked.{IsLinked}
use devinsidercoin.Chain.Start.{OldChain, opened, load_stakes, load_chain, new_blockchain}
use devinsidercoin.Chain.{Blockchain}

module _ {F : Type 0} ⦃fl : Float64 F⦄ ⦃js : Json F⦄ where
  abbrev decoded_over : Option (List ℕ) → Option (Stake F) → Option (Stake F)
  decoded_over none old = old
  decoded_over (some raw) old = elim (js.unmarshal_stake raw) [ none ↦ old | some s ↦ some s ]

  lookup-load_stakes :
      (k : Str) (entries : Dict (List ℕ)) (m : Stakes F)
      → IsDistinct entries
      → lookup k (load_stakes entries m) ≡ decoded_over (lookup k entries) (lookup k m)
  unfolding load_stakes lookup
  lookup-load_stakes k [] m h = refl
  lookup-load_stakes k ((j, raw) ∷ entries) m h =
      let absent = λ (same : str_eq j k ≡ true).
        ap (λ i. lookup i entries) (sym ((str_eq_iff j k).0 same)) ∙ h.0 in
      elim (Option-cases (js.unmarshal_stake raw)) [
        | inl e ↦
            rw (e, load_stakes)
              (lookup-load_stakes k entries m h.1 ∙ elim (Bool-cases (str_eq j k)) [
                | inl same ↦ rw (same, absent same, e) refl
                | inr apart ↦ rw apart refl
              ])
        | inr (s, e) ↦
            rw (e, load_stakes)
              (lookup-load_stakes k entries (insert j s m) h.1 ∙ elim (Bool-cases (str_eq j k)) [
                | inl same ↦ rw (lookup-insert j k s m, same, absent same, e) refl
                | inr apart ↦ rw (lookup-insert j k s m, apart) refl
              ])
      ]

  as_float-stored :
      (o : Option F)
      → ((f : F) → o ≡ some f → js.unmarshal_float (js.marshal_float f) ≡ some f)
      → as_float (stored o) ≡ o
  unfolding bytes_to_float float_to_bytes
  as_float-stored none h = refl
  as_float-stored (some f) h = rw (h f refl, bytes_to_float) refl

  decoded_over-encoded :
      (o : Option (Stake F))
      → ((s : Stake F)
          → o ≡ some s
          → (raw : List ℕ) × (js.marshal_stake s ≡ some raw) × (js.unmarshal_stake raw ≡ some s))
      → decoded_over (encoded o) none ≡ o
  decoded_over-encoded none h = refl
  decoded_over-encoded (some s) h =
      let (raw, made, read) = h s refl in rw (made, decoded_over) (rw read refl)

  -- Every value in memory comes back from its encoding.
  pub record Survives {D : Type 0} (bc : Blockchain F D) : Type 0 where
    pub balance :
        (a : Str) (f : F)
        → lookup a bc.balances ≡ some f
        → js.unmarshal_float (js.marshal_float f) ≡ some f
    pub stake :
        (a : Str) (s : Stake F)
        → lookup a bc.stakes ≡ some s
        → (raw : List ℕ) × (js.marshal_stake s ≡ some raw) × (js.unmarshal_stake raw ≡ some s)
    pub minted : js.unmarshal_float (js.marshal_float bc.total_minted) ≡ some bc.total_minted

module _ {F : Type 0} ⦃fl : Float64 F⦄ ⦃js : Json F⦄ {D : Type 0} ⦃db : Bolt D⦄ where
  -- What a restart keeps.
  pub record IsRestored (before after : Blockchain F D) : Type 0 where
    pub store : after.store ≡ before.store
    pub balance_at : (a : Str) → lookup a after.balances ≡ lookup a before.balances
    pub stake_at : (a : Str) → lookup a after.stakes ≡ lookup a before.stakes
    pub total_minted : after.total_minted ≡ before.total_minted
    pub last_block : after.last_block ≡ before.last_block
    pub mempool : after.mempool ≡ []

  load_chain-IsRestored :
      (sum256 : List ℕ → List ℕ)
      → IsBolt D
      → (bc : Blockchain F D) → has_data bc.store ≡ true
      → Agrees bc
      → IsLinked sum256 bc
      → Survives bc
      → IsRestored bc (load_chain (opened bc.config bc.store))
  unfolding load_chain
  load_chain-IsRestored sum256 laws bc has agrees linked kept = record {
    store = refl;
    balance_at = λ a.
        lookup-get_all_balances laws a bc.store
        ∙ ap as_float (agrees.balance_at a)
        ∙ as_float-stored (lookup a bc.balances) (kept.balance a);
    stake_at = λ a.
        lookup-load_stakes a (get_all_stakes_raw bc.store) []
          (get_all_stakes_raw-IsDistinct bc.store)
        ∙ rw (lookup-get_all_stakes_raw laws a bc.store, agrees.stake_at a)
            (unfold lookup in decoded_over-encoded (lookup a bc.stakes) (kept.stake a));
    total_minted =
        unfold get_total_minted bytes_to_float float_to_bytes in
        rw (agrees.minted, get_total_minted) (rw (kept.minted, bytes_to_float) refl);
    last_block = linked.last (to_word64 (get_best_height bc.store)) (best-count bc.store has);
    mempool = refl;
  }

  -- Under bbolt's laws, from a chain in memory whose database has data and agrees with it, whose
  -- blocks form a chain, and whose values come back from their encodings, a restart on the same
  -- database succeeds, whatever older file there is, and keeps every balance and every stake, the
  -- amount minted and the last block; the mempool is empty.
  pub new_blockchain-IsRestored :
      (sum256 : List ℕ → List ℕ) (parse_time : Str → Option ℤ)
      → IsBolt D
      → (bc : Blockchain F D) (old : Option (OldChain F)) (now : ℤ) → has_data bc.store ≡ true
      → Agrees bc
      → IsLinked sum256 bc
      → Survives bc
      → (after : Blockchain F D) × (new_blockchain sum256 parse_time bc.config bc.store old now
          ≡ some after)
        × IsRestored bc after
  unfolding new_blockchain
  new_blockchain-IsRestored sum256 parse_time laws bc old now has agrees linked kept = (
    load_chain (opened bc.config bc.store),
    rw (has, new_blockchain) refl,
    load_chain-IsRestored sum256 laws bc has agrees linked kept,
  )
