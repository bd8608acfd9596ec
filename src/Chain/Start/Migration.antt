-- ===== src/Chain/Start/Migration.antt =====
-- A start with the file of an older version.
use devinsidercoin.Prelude.{
  ℕ, ◌≡◌, refl, ap, ◌∙◌, Bool, true, false, Option, none, some, inl, inr, Option-cases, List, [],
  ◌∷◌, map, foldl, get_last?, arith, Str,
}
use devinsidercoin.Prelude.Int.{ℤ}
use devinsidercoin.Prelude.Dict.{Dict, lookup, insert, IsDistinct}
use devinsidercoin.Prelude.Float64.{Float64}
use devinsidercoin.Config.{NetworkConfig}
use devinsidercoin.Block.{Block}
use devinsidercoin.Stakes.{Stake}
use devinsidercoin.Storage.Database.{Bolt, IsBolt, balances, stakes, meta}
use devinsidercoin.Storage.Encoding.{Json}
use devinsidercoin.Storage.Commit.{IsCommitted, commit_block-IsCommitted}
use devinsidercoin.Storage.Listing.{lookup-fill}
use devinsidercoin.Storage.{total_minted_key, float_to_bytes, commit_block}
use devinsidercoin.Ledger.Changed.{encoded}
use devinsidercoin.Chain.Agree.{Agrees, stored}
use devinsidercoin.Chain.Start.{
  OldChain, or_empty, or_keep, is_empty, opened, old_commit, migrate_blocks, migrate_from_json,
  new_blockchain,
}
use devinsidercoin.Chain.Start.Fresh.{IsBlank, blank-has_data}
use devinsidercoin.Chain.{Blockchain}

module _ {V W : Type 0} (g : V → W) where
  lookup-map :
      (k : Str) (m : Dict V)
      → lookup k (map (λ e. (e.0, g e.1)) m)
        ≡ elim (lookup k m) [ none ↦ none | some v ↦ some (g v) ]
  unfolding lookup
  lookup-map k [] = refl
  lookup-map k ((j, v) ∷ m) = ground (arith, lookup-map k m)

  map-IsDistinct : (m : Dict V) → IsDistinct m → IsDistinct (map (λ e. (e.0, g e.1)) m)
  map-IsDistinct [] h = tt
  map-IsDistinct ((j, v) ∷ m) h = (lookup-map j m ∙ rw h.0 refl, map-IsDistinct m h.1)

same_elim : {V : Type 0} (o : Option V) → elim o [ none ↦ none | some v ↦ some v ] ≡ o
same_elim none = refl
same_elim (some v) = refl

or_keep_lem : {V : Type 0} (o : Option (Dict V)) → or_keep o [] ≡ or_empty o
or_keep_lem none = refl
or_keep_lem (some m) = refl

abbrev adopted :
    {F : Type 0} ⦃fl : Float64 F⦄ ⦃js : Json F⦄ {D : Type 0} ⦃db : Bolt D⦄
    → OldChain F
    → NetworkConfig F
    → D
    → D
    → Blockchain F D
adopted old cfg d d' = record (opened cfg d) {
  store = d';
  balances = or_keep old.balances [];
  stakes = foldl (λ m e. insert e.0 e.1 m) [] (or_empty old.stakes);
  total_minted = old.total_minted;
  last_block = get_last? old.blocks;
}

-- The buckets of the balances and of the stakes are empty.
record IsBare {D : Type 0} ⦃db : Bolt D⦄ (d : D) : Type 0 where
  balance_at : (a : Str) → db.get d balances a ≡ none
  stake_at : (a : Str) → db.get d stakes a ≡ none

-- Every key of the maps of the older file occurs once.
pub record HasMaps {F : Type 0} (old : OldChain F) : Type 0 where
  pub balances : IsDistinct (or_empty old.balances)
  pub stakes : IsDistinct (or_empty old.stakes)

module _ {F : Type 0} ⦃fl : Float64 F⦄ ⦃js : Json F⦄ where
  held :
      (o : Option F) (x : Option (List ℕ))
      → x ≡ none
      → elim o [ none ↦ x | some f ↦ some (float_to_bytes f) ] ≡ stored o
  held none x e = e
  held (some f) x e = refl

  held_stake :
      (o : Option (Stake F)) (l : Option (Option (List ℕ))) (x : Option (List ℕ))
      → l ≡ elim o [ none ↦ none | some s ↦ some (js.marshal_stake s) ]
      → x ≡ none
      → elim l [ none ↦ x | some s ↦ s ] ≡ encoded o
  held_stake none l x p e = rw p e
  held_stake (some s) l x p e = rw p refl

module _ {F : Type 0} ⦃fl : Float64 F⦄ ⦃js : Json F⦄ {D : Type 0} ⦃db : Bolt D⦄ where
  -- The database holds the state of the older file.
  record Holds (old : OldChain F) (d : D) : Type 0 where
    balance_at : (a : Str) → db.get d balances a ≡ stored (lookup a (or_empty old.balances))
    stake_at : (a : Str) → db.get d stakes a ≡ encoded (lookup a (or_empty old.stakes))
    minted : db.get d meta total_minted_key ≡ some (float_to_bytes old.total_minted)

  earlier-IsBare :
      (old : OldChain F) (block : Block F) (d d' : D)
      → IsBare d
      → IsCommitted (old_commit old false block) d d'
      → IsBare d'
  unfolding old_commit lookup
  earlier-IsBare old block d d' bare w = record {
    balance_at = λ a. w.balance_at a ∙ bare.balance_at a;
    stake_at = λ a. w.stake_at a ∙ bare.stake_at a;
  }

  last-Holds :
      (old : OldChain F) (block : Block F) (d d' : D)
      → IsBare d
      → IsCommitted (old_commit old true block) d d'
      → Holds old d'
  unfolding old_commit
  last-Holds old block d d' bare w = record {
    balance_at = λ a.
        w.balance_at a
        ∙ held (lookup a (or_empty old.balances)) (db.get d balances a) (bare.balance_at a);
    stake_at = λ a.
        w.stake_at a
        ∙ held_stake (lookup a (or_empty old.stakes)) _ (db.get d stakes a)
            (lookup-map (λ s. js.marshal_stake s) a (or_empty old.stakes)) (bare.stake_at a);
    minted = w.total_minted;
  }

  module _ (laws : IsBolt D) (old : OldChain F) (maps : HasMaps old) where
    commit-old :
        (is_last : Bool) (block : Block F) (d d' : D)
        → commit_block (old_commit old is_last block) d ≡ some d'
        → IsCommitted (old_commit old is_last block) d d'
    unfolding old_commit
    commit-old true block d d' e =
        commit_block-IsCommitted laws (old_commit old true block) d d' maps.balances
          (map-IsDistinct (λ s. js.marshal_stake s) (or_empty old.stakes) maps.stakes) e
    commit-old false block d d' e =
        commit_block-IsCommitted laws (old_commit old false block) d d' tt tt e

    migrate_blocks-Holds :
        (block : Block F) (blocks : List (Block F)) (d after : D)
        → IsBare d
        → migrate_blocks old (block ∷ blocks) d ≡ (true, after)
        → Holds old after
    unfolding migrate_blocks
    migrate_blocks-Holds block [] d after bare e =
        elim (Option-cases (commit_block (old_commit old true block) d)) [
          | inl failed ↦ absurd (ground (arith, rw (failed, migrate_blocks) at e))
          | inr (d1, done) ↦
              let same : d1 ≡ after = cc (rw (done, migrate_blocks) at e) in
              rw (← same) (last-Holds old block d d1 bare (commit-old true block d d1 done))
        ]
    migrate_blocks-Holds block (next ∷ blocks) d after bare e =
        elim (Option-cases (commit_block (old_commit old false block) d)) [
          | inl failed ↦ absurd (ground (arith, rw (failed, migrate_blocks) at e))
          | inr (d1, done) ↦
              migrate_blocks-Holds next blocks d1 after
                (earlier-IsBare old block d d1 bare (commit-old false block d d1 done))
                (rw (done, migrate_blocks) at e)
        ]

    adopted-Agrees :
        (bc : Blockchain F D) (d : D)
        → Holds old d
        → bc.store ≡ d
        → ((a : Str) → lookup a bc.balances ≡ lookup a (or_empty old.balances))
        → ((a : Str) → lookup a bc.stakes ≡ lookup a (or_empty old.stakes))
        → bc.total_minted ≡ old.total_minted
        → Agrees bc
    adopted-Agrees bc d holds store same_balances same_stakes same_minted = record {
      balance_at = λ a. rw (store, same_balances a) (holds.balance_at a);
      stake_at = λ a. rw (store, same_stakes a) (holds.stake_at a);
      minted = rw (store, same_minted) holds.minted;
    }

    migrated-Holds :
        (d d' : D)
        → IsBlank d
        → is_empty old.blocks ≡ false
        → migrate_blocks old old.blocks d ≡ (true, d')
        → Holds old d'
    migrated-Holds d d' blank some_blocks done = by_blocks old.blocks some_blocks done
      where
        bare : IsBare d
        bare = record {
          balance_at = λ a. blank.blank balances a;
          stake_at = λ a. blank.blank stakes a;
        }

        by_blocks :
            (blocks : List (Block F))
            → is_empty blocks ≡ false
            → migrate_blocks old blocks d ≡ (true, d')
            → Holds old d'
        by_blocks [] e done = absurd (cc e)
        by_blocks (block ∷ blocks) e done = migrate_blocks-Holds block blocks d d' bare done

    module _ (sum256 : List ℕ → List ℕ) (parse_time : Str → Option ℤ) where
      -- On an empty database and under bbolt's laws, with an older file of at least one block whose
      -- maps have distinct keys and whose blocks are all committed, the node starts with the last of
      -- them as its last block, and the database agrees with the memory.
      pub new_blockchain-migrated :
          (cfg : NetworkConfig F) (d d' : D) (now : ℤ)
          → IsBlank d
          → is_empty old.blocks ≡ false
          → migrate_blocks old old.blocks d ≡ (true, d')
          → (bc : Blockchain F D) × (new_blockchain sum256 parse_time cfg d (some old) now
              ≡ some bc)
            × (bc.store ≡ d')
            × (bc.last_block ≡ get_last? old.blocks)
            × Agrees bc
      unfolding new_blockchain migrate_from_json
      new_blockchain-migrated cfg d d' now blank some_blocks done = (
        adopted old cfg d d',
        rw (blank-has_data d blank, some_blocks, done, new_blockchain, migrate_from_json) refl,
        refl,
        refl,
        adopted-Agrees (adopted old cfg d d') d' (migrated-Holds d d' blank some_blocks done) refl
            (λ a. ap (lookup a) (or_keep_lem old.balances))
            (λ a.
              lookup-fill (λ v. v) a (or_empty old.stakes) [] maps.stakes
              ∙ unfold lookup in same_elim (lookup a (or_empty old.stakes)))
            refl,
      )
