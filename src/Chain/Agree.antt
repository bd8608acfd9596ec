-- ===== src/Chain/Agree.antt =====
-- The database and the maps in memory hold the same balances and amount minted, and the same stakes but
-- for those that have no encoding, which the database lacks.
use devinsidercoin.Prelude.{
  ℕ, ◌<◌, ◌^◌, ◌≡◌, ◌≢◌, refl, sym, ◌∙◌, ap, Option, none, some, List, Str,
}
use devinsidercoin.Prelude.Dict.{lookup}
use devinsidercoin.Prelude.Float64.{Float64}
use devinsidercoin.Block.{Block}
use devinsidercoin.Storage.Database.{Bolt, IsBolt, balances, stakes, meta}
use devinsidercoin.Storage.Encoding.{Json}
use devinsidercoin.Storage.Write.{overwritten}
use devinsidercoin.Storage.{float_to_bytes, total_minted_key}
use devinsidercoin.Ledger.Changed.{or_else, encoded}
use devinsidercoin.Chain.{
  Blockchain, BlockError, bad_height, bad_prev_hash, bad_hash, insufficient_work,
  too_many_transactions, block_too_large, below_floor, commit_failed, block_effects, block_commit,
  add_block,
}
use devinsidercoin.Chain.Add.{IsAdded, IsConnected, block_effects-IsTracked, add_block-IsAdded}

merged-overwritten :
    (new : Option (Option (List ℕ))) (old d : Option (List ℕ))
    → d ≡ old
    → elim new [ none ↦ d | some s ↦ s ] ≡ overwritten new old
merged-overwritten none old d e = e
merged-overwritten (some s) old d e = refl

module _ {F : Type 0} ⦃fl : Float64 F⦄ ⦃js : Json F⦄ where
  -- A balance as the database holds it.
  abbrev pub stored : Option F → Option (List ℕ)
  stored none = none
  stored (some f) = some (float_to_bytes f)

  merged-stored :
      (new old : Option F) (d : Option (List ℕ))
      → d ≡ stored old
      → elim new [ none ↦ d | some f ↦ some (float_to_bytes f) ] ≡ stored (or_else new old)
  merged-stored none old d e = e
  merged-stored (some f) old d e = refl

module _ {F : Type 0} ⦃fl : Float64 F⦄ ⦃js : Json F⦄ {D : Type 0} ⦃db : Bolt D⦄ where
  -- The database holds exactly the balances, the amount minted, and those stakes of the memory that have
  -- an encoding.
  pub record Agrees (bc : Blockchain F D) : Type 0 where
    pub balance_at : (a : Str) → db.get bc.store balances a ≡ stored (lookup a bc.balances)
    pub stake_at : (a : Str) → db.get bc.store stakes a ≡ encoded (lookup a bc.stakes)
    pub minted : db.get bc.store meta total_minted_key ≡ some (float_to_bytes bc.total_minted)

  -- A connected block leaves the database and the memory in agreement.
  connected-Agrees :
      (bc after : Blockchain F D) (block : Block F)
      → Agrees bc
      → IsConnected bc block after
      → Agrees after
  unfolding block_commit
  connected-Agrees bc after block agrees c =
      let t = block_effects-IsTracked bc block in
      record {
        balance_at = λ a.
            c.committed.balance_at a
            ∙ merged-stored (lookup a (block_effects bc block).changed_balances)
                (lookup a bc.balances) (db.get bc.store balances a) (agrees.balance_at a)
            ∙ ap stored (sym (ap (lookup a) c.balances ∙ t.balances_at a));
        stake_at = λ a.
            c.committed.stake_at a
            ∙ merged-overwritten (lookup a (block_effects bc block).changed_stakes)
                (encoded (lookup a bc.stakes)) (db.get bc.store stakes a) (agrees.stake_at a)
            ∙ sym (ap (λ m. encoded (lookup a m)) c.stakes ∙ t.stakes_at a);
        minted = c.committed.total_minted ∙ rw c.total_minted refl;
      }

  module _ (laws : IsBolt D) where
    -- Under bbolt's laws, adding a block at a height that an int64 holds keeps a database that
    -- agrees with the memory in agreement: it holds the balances, the amount minted, and the
    -- stakes of the memory that have an encoding, and no entry for any other stake. So it is
    -- whether the block is connected or refused by the validation; only a failing commit is
    -- excepted.
    pub add_block-Agrees :
        (sum256 : List ℕ → List ℕ) (bc : Blockchain F D) (block : Block F)
        → block.header.height < 2 ^ 63
        → Agrees bc
        → ((add_block sum256 bc block).0 ≢ some commit_failed)
        → Agrees (add_block sum256 bc block).1
    add_block-Agrees sum256 bc block low agrees ok =
        cases (add_block sum256 bc block) (add_block-IsAdded laws sum256 bc block low) ok
      where
        cases :
            (r : Option BlockError × Blockchain F D)
            → IsAdded sum256 bc block r
            → r.0 ≢ some commit_failed
            → Agrees r.1
        cases (none, after) added ok = connected-Agrees bc after block agrees added.1
        cases (some commit_failed, after) added ok = absurd (ok refl)
        cases (some bad_height, after) added ok = rw added.1 agrees
        cases (some bad_prev_hash, after) added ok = rw added.1 agrees
        cases (some bad_hash, after) added ok = rw added.1 agrees
        cases (some insufficient_work, after) added ok = rw added.1 agrees
        cases (some too_many_transactions, after) added ok = rw added.1 agrees
        cases (some block_too_large, after) added ok = rw added.1 agrees
        cases (some below_floor, after) added ok = rw added.1 agrees
