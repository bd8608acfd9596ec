-- ===== src/Chain/Behind.antt =====
-- internal/blockchain/chain.go: a chain that lacks the last blocks of another one.
use devinsidercoin.Prelude.{
  ℕ, suc, ◌+◌, ◌-◌, ◌≤◌, ◌<◌, ◌^◌, ◌≡◌, refl, sym, ap, ◌∙◌, true, false, Option, none, some, inl,
  inr, Bool-cases, List, arith, ◌==◌,
}
use devinsidercoin.Prelude.Float64.{Float64}
use devinsidercoin.Block.{Block}
use devinsidercoin.Storage.Database.{Bolt, IsBolt}
use devinsidercoin.Storage.Encoding.{Json}
use devinsidercoin.Storage.{get_block_count}
use devinsidercoin.Storage.Total.{IsStorable}
use devinsidercoin.Chain.{Blockchain, BlockError, load_block, block_commit, add_block}
use devinsidercoin.Chain.Validate.{IsNext}
use devinsidercoin.Chain.Add.{IsAdded, IsConnected, add_block-IsAdded}
use devinsidercoin.Chain.Accept.{add_block-IsAccepted}
use devinsidercoin.Chain.Linked.{IsLinked, load_block-committed, add_block-IsLinked}

module _ (sum256 : List ℕ → List ℕ) {F : Type 0} ⦃js : Json F⦄ {D : Type 0} ⦃db : Bolt D⦄ where
  -- The blocks of the one chain are the first ones of the other, and both have one configuration.
  pub record IsBehind (bc other : Blockchain F D) : Type 0 where
    pub linked : IsLinked sum256 bc
    pub started : 1 ≤ get_block_count bc.store
    pub shorter : get_block_count bc.store ≤ get_block_count other.store
    pub same_blocks :
        (h : ℕ)
        → h < get_block_count bc.store
        → load_block {F = F} h bc.store ≡ load_block h other.store
    pub config : bc.config ≡ other.config

  module _ (bc other : Blockchain F D) (behind : IsBehind bc other)
      (linked : IsLinked sum256 other) where
    last_under :
        (h : ℕ)
        → suc h ≡ get_block_count bc.store
        → (under : Block F) × (bc.last_block ≡ some under) × (load_block h other.store ≡ some under)
    last_under h at =
        let sound = behind.linked.stored_at h (omega arith) in
        (
          sound.block,
          sym (behind.linked.last h at) ∙ sound.loaded,
          sym (behind.same_blocks h (omega arith)) ∙ sound.loaded,
        )

    -- The other chain's block on top of the chain is its next one.
    pub behind-IsNext :
        (b : Block F)
        → get_block_count bc.store < get_block_count other.store
        → load_block (get_block_count bc.store) other.store ≡ some b
        → IsNext sum256 bc b
    behind-IsNext b lt loaded =
        let sound = linked.stored_at (get_block_count bc.store) lt in
        let same : sound.block ≡ b = cc (sound.loaded, loaded) in
        let within = sound.within behind.started in
        let h = get_block_count bc.store - 1 in
        let at : suc h ≡ get_block_count bc.store = omega (arith, behind.started) in
        let (under, last, stored) = last_under h at in
        rw (← same) (record {
          height = sound.height;
          follows = λ later.
              rw last (linked.links h under sound.block (omega arith) stored (rw at sound.loaded));
          hash = sound.hash;
          work = sound.work behind.started;
          transactions = rw behind.config within.transactions;
          size = rw behind.config within.size;
          floor = rw behind.config within.floor;
        })

module _ (sum256 : List ℕ → List ℕ) {F : Type 0} ⦃fl : Float64 F⦄ ⦃js : Json F⦄ {D : Type 0}
    ⦃db : Bolt D⦄ (laws : IsBolt D) where
  accepted-IsNext :
      (bc : Blockchain F D) (b : Block F) (r : Option BlockError × Blockchain F D)
      → IsAdded sum256 bc b r
      → r.0 ≡ none
      → IsNext sum256 bc b × IsConnected bc b r.1
  accepted-IsNext bc b (none, after) added e = added
  accepted-IsNext bc b (some error, after) added e = absurd (cc e)

  -- A chain is behind what a block makes of it.
  pub IsBehind-add_block :
      (bc : Blockchain F D) (b : Block F)
      → IsLinked sum256 bc
      → 1 ≤ get_block_count bc.store
      → b.header.height < 2 ^ 63
      → (add_block sum256 bc b).0 ≡ none
      → IsBehind sum256 bc (add_block sum256 bc b).1
  IsBehind-add_block bc b linked started low e =
      let after = (add_block sum256 bc b).1 in
      let added = add_block-IsAdded laws sum256 bc b low in
      let (next, c) = accepted-IsNext bc b (add_block sum256 bc b) added e in
      record {
        linked = linked;
        started = started;
        shorter = omega (arith, c.count, next.height);
        same_blocks = λ h lt.
            let apart : b.header.height == h ≡ false = ground (arith, next.height) in
            sym (
              load_block-committed (block_commit bc b) bc.store after.store h c.committed
                (unfold block_commit in low) (omega (arith, linked.bounded))
              ∙ unfold block_commit in rw apart refl);
        config = sym c.config;
      }

  -- The chain takes the other chain's next block, and is behind by one block less.
  pub add_block-IsBehind :
      (bc other : Blockchain F D) (b : Block F)
      → IsBehind sum256 bc other
      → IsLinked sum256 other
      → get_block_count bc.store < get_block_count other.store
      → load_block (get_block_count bc.store) other.store ≡ some b
      → js.unmarshal_block (js.marshal_block b) ≡ some b
      → IsStorable (block_commit bc b)
      → ((after : D) → db.flush after ≡ true)
      → (get_block_count (add_block sum256 bc b).1.store ≡ get_block_count bc.store + 1)
        × IsBehind sum256 (add_block sum256 bc b).1 other
  add_block-IsBehind bc other b behind linked lt loaded decoded fit flushed =
      let next = behind-IsNext sum256 bc other behind linked b lt loaded in
      let low : b.header.height < 2 ^ 63 = omega (arith, next.height, linked.bounded) in
      let accepted = add_block-IsAccepted laws sum256 bc b low next fit flushed in
      let (again, c) =
        accepted-IsNext bc b (add_block sum256 bc b) (add_block-IsAdded laws sum256 bc b low)
          accepted.no_error in
      let after = (add_block sum256 bc b).1 in
      let after_linked = add_block-IsLinked sum256 laws bc b low decoded behind.linked in
      (
        accepted.count,
        record {
          linked = after_linked;
          started = omega (arith, accepted.count);
          shorter = omega (arith, accepted.count);
          same_blocks = λ h h_lt. elim (Bool-cases (b.header.height == h)) [
            | inl e ↦
                let at : h ≡ get_block_count bc.store = ground (arith, next.height) in
                after_linked.last h (ap suc at ∙ omega (arith, accepted.count))
                ∙ accepted.last_block
                ∙ rw at (sym loaded)
            | inr e ↦
                let under : h < get_block_count bc.store =
                  ground (arith, next.height, accepted.count) in
                load_block-committed (block_commit bc b) bc.store after.store h c.committed
                  (unfold block_commit in low) (omega (arith, behind.linked.bounded))
                ∙ unfold block_commit in rw e (behind.same_blocks h under)
          ];
          config = c.config ∙ behind.config;
        },
      )
