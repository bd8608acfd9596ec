-- ===== src/Chain/Growth.antt =====
-- internal/blockchain/chain.go: what any one call does to the chain of blocks.
use devinsidercoin.Prelude.{
  ℕ, ◌+◌, ◌≤◌, ◌<◌, ◌^◌, ◌≡◌, refl, false, Option, none, some, inl, inr, Bool-cases, Option-cases,
  ap, ◌∙◌, List, ◌==◌, arith,
}
use devinsidercoin.Prelude.Float64.{Float64}
use devinsidercoin.Block.{Block, Transaction}
use devinsidercoin.Storage.Database.{Bolt, IsBolt}
use devinsidercoin.Storage.Encoding.{Json}
use devinsidercoin.Storage.{get_block_count}
use devinsidercoin.Chain.{
  Blockchain, BlockError, bad_height, bad_prev_hash, bad_hash, insufficient_work,
  too_many_transactions, block_too_large, below_floor, commit_failed, validate_block, apply_effects,
  add_block,
}
use devinsidercoin.Chain.Add.{IsAdded, add_block-IsAdded}
use devinsidercoin.Chain.Linked.{IsLinked, add_block-IsLinked}
use devinsidercoin.Chain.Mempool.{refusal, add_to_mempool}

-- The number of blocks after a call of `AddBlock` that ended so.
abbrev pub counted : Option BlockError → ℕ → ℕ
counted none count = count + 1
counted (some e) count = count

counted-le : (o : Option BlockError) (count : ℕ) → counted o count ≤ count + 1
counted-le none count = omega arith
counted-le (some e) count = omega arith

module _ (sum256 : List ℕ → List ℕ) {F : Type 0} ⦃js : Json F⦄ {D : Type 0} ⦃db : Bolt D⦄ where
  -- The blocks still form a chain, and there is at most one more.
  pub record IsGrown (before after : Blockchain F D) : Type 0 where
    pub linked : IsLinked sum256 after
    pub count : get_block_count after.store ≤ get_block_count before.store + 1

module _ (sum256 : List ℕ → List ℕ) {F : Type 0} ⦃fl : Float64 F⦄ ⦃js : Json F⦄ {D : Type 0}
    ⦃db : Bolt D⦄ where
  pub add_block-bad_height :
      (bc : Blockchain F D) (b : Block F)
      → b.header.height == get_block_count bc.store ≡ false
      → add_block sum256 bc b ≡ (some bad_height, bc)
  unfolding add_block validate_block
  add_block-bad_height bc b apart = rw (apart, add_block, validate_block) refl

  pub same-IsGrown : (bc : Blockchain F D) → IsLinked sum256 bc → IsGrown sum256 bc bc
  same-IsGrown bc linked = record { linked = linked; count = omega arith }

  pub mempool-IsGrown :
      (bc : Blockchain F D) (t : Transaction F)
      → IsLinked sum256 bc
      → IsGrown sum256 bc (add_to_mempool bc t).1
  unfolding add_to_mempool
  mempool-IsGrown bc t linked = elim (Option-cases (refusal t.type bc t)) [
    | inl e ↦
        rw (e, add_to_mempool)
          (record {
            linked = record {
              bounded = linked.bounded;
              stored_at = linked.stored_at;
              exact = linked.exact;
              links = linked.links;
              last = linked.last;
            };
            count = omega arith;
          })
    | inr (error, e) ↦ rw (e, add_to_mempool) (same-IsGrown bc linked)
  ]

  module _ (laws : IsBolt D) where
    added-count :
        (bc : Blockchain F D) (b : Block F) (r : Option BlockError × Blockchain F D)
        → IsAdded sum256 bc b r
        → get_block_count r.1.store ≡ counted r.0 (get_block_count bc.store)
    unfolding apply_effects
    added-count bc b (none, after) a = a.1.count ∙ ap (λ k. k + 1) a.0.height
    added-count bc b (some commit_failed, after) a = rw (a.2) refl
    added-count bc b (some bad_height, after) a = rw a.1 refl
    added-count bc b (some bad_prev_hash, after) a = rw a.1 refl
    added-count bc b (some bad_hash, after) a = rw a.1 refl
    added-count bc b (some insufficient_work, after) a = rw a.1 refl
    added-count bc b (some too_many_transactions, after) a = rw a.1 refl
    added-count bc b (some block_too_large, after) a = rw a.1 refl
    added-count bc b (some below_floor, after) a = rw a.1 refl

    -- The blocks are one more exactly after a call without an error.
    pub add_block-count :
        (bc : Blockchain F D) (b : Block F)
        → get_block_count bc.store < 2 ^ 63
        → get_block_count (add_block sum256 bc b).1.store
          ≡ counted (add_block sum256 bc b).0 (get_block_count bc.store)
    add_block-count bc b room = elim (Bool-cases (b.header.height == get_block_count bc.store)) [
      | inr apart ↦ rw (add_block-bad_height bc b apart) refl
      | inl same ↦
          let low : b.header.height < 2 ^ 63 = ground arith in
          added-count bc b (add_block sum256 bc b) (add_block-IsAdded laws sum256 bc b low)
    ]

    pub add_block-IsGrown :
        (bc : Blockchain F D) (b : Block F)
        → get_block_count bc.store < 2 ^ 63
        → js.unmarshal_block (js.marshal_block b) ≡ some b
        → IsLinked sum256 bc
        → IsGrown sum256 bc (add_block sum256 bc b).1
    add_block-IsGrown bc b room decoded linked =
        elim (Bool-cases (b.header.height == get_block_count bc.store)) [
          | inr apart ↦ rw (add_block-bad_height bc b apart) (same-IsGrown bc linked)
          | inl same ↦
              let low : b.header.height < 2 ^ 63 = ground arith in
              record {
                linked = add_block-IsLinked sum256 laws bc b low decoded linked;
                count =
                    rw (add_block-count bc b room)
                      (counted-le (add_block sum256 bc b).0 (get_block_count bc.store));
              }
        ]
