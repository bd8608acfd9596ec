-- ===== src/Chain/Validate.antt =====
-- When a block is valid.
use devinsidercoin.Prelude.{
  ℕ, ◌≤◌, ◌≡◌, ◌↔◌, refl, Bool, true, false, not, ◌&&◌, Option, none, some, inl, inr, List, length,
  arith, ltb, ◌==◌, str_eq, str_eq_iff, Bool-cases,
}
use devinsidercoin.Block.{Block, compute_hash}
use devinsidercoin.Pow.{bits_to_target, check_proof_of_work, progressive_difficulty_floor}
use devinsidercoin.Storage.Database.{Bolt}
use devinsidercoin.Storage.Encoding.{Json}
use devinsidercoin.Storage.{get_block_count}
use devinsidercoin.Chain.{
  Blockchain, bad_height, bad_prev_hash, bad_hash, insufficient_work, too_many_transactions,
  block_too_large, below_floor, refuse_if, is_unlinked, is_below_floor, validate_block,
}

-- The block names the last block as its predecessor, if there is one.
abbrev pub Follows : {F : Type 0} → Option (Block F) → Block F → Type 0
Follows none block = Unit
Follows (some last) block = block.header.prev_hash ≡ last.hash

-- No check of the sequence refuses exactly if every condition is false.
refuse_all :
    (a b c d f g h : Bool)
    → (refuse_if a bad_height (
          refuse_if b bad_prev_hash (
            refuse_if c bad_hash (
              refuse_if d insufficient_work (
                refuse_if f too_many_transactions
                  (refuse_if g block_too_large (refuse_if h below_floor none))))))
        ≡ none)
      ↔ ((a ≡ false)
          × (b ≡ false)
          × (c ≡ false)
          × (d ≡ false)
          × (f ≡ false)
          × (g ≡ false)
          × (h ≡ false))
refuse_all a b c d f g h = ground arith

module _ {F : Type 0} where
  linked_iff :
      (o : Option (Block F)) (n : ℕ) (block : Block F)
      → block.header.height ≡ n
      → (◌≡◌ {A = Bool}
          (elim o [
            | none ↦ false
            | some last ↦ ltb 0 n && not (str_eq block.header.prev_hash last.hash)
          ])
          false)
        ↔ ((1 ≤ block.header.height) → Follows o block)
  linked_iff none n block at = (λ e pos. tt, λ f. refl)
  linked_iff (some last) n block at = (
    λ e pos. ground (arith, str_eq_iff block.header.prev_hash last.hash),
    λ f. elim (Bool-cases (ltb 0 n)) [
      | inl e ↦
          let same : block.header.prev_hash ≡ last.hash = f (ground arith) in
          rw (e, (str_eq_iff block.header.prev_hash last.hash).1 same)
      | inr e ↦ rw e
    ],
  )

module _ (sum256 : List ℕ → List ℕ) {F : Type 0} ⦃js : Json F⦄ {D : Type 0} ⦃db : Bolt D⦄ where
  -- The conditions on the next block, one by one.
  pub record IsNext (bc : Blockchain F D) (block : Block F) : Type 0 where
    pub height : block.header.height ≡ get_block_count bc.store
    pub follows : (1 ≤ block.header.height) → Follows bc.last_block block
    pub hash : block.hash ≡ compute_hash sum256 block.header
    pub work : check_proof_of_work block.hash block.header.bits ≡ true
    pub transactions : length block.transactions ≤ bc.config.max_block_transactions
    pub size : length (js.marshal_block block) ≤ bc.config.max_block_size
    pub floor :
        bits_to_target block.header.bits
        ≤ bits_to_target (
            progressive_difficulty_floor block.header.height bc.config.difficulty_epoch_blocks
              bc.config.min_difficulty_bits)

  -- A block is valid exactly if it is at the next height, names the last block's hash unless it is
  -- the first, has its header's hash, meets its own target, is within the limits of transactions and
  -- size, and its target is not above the floor of its height.
  pub validate_block_iff :
      (bc : Blockchain F D) (block : Block F)
      → (validate_block sum256 bc block ≡ none) ↔ IsNext bc block
  unfolding validate_block
  validate_block_iff bc block =
      let next = get_block_count bc.store in
      let all =
        refuse_all (not (block.header.height == next)) (is_unlinked bc block)
          (not (str_eq block.hash (compute_hash sum256 block.header)))
          (not (check_proof_of_work block.hash block.header.bits))
          (ltb bc.config.max_block_transactions (length block.transactions))
          (ltb bc.config.max_block_size (length (js.marshal_block block)))
          (is_below_floor bc block) in
      (
        λ e.
            let (at, link, hash, work, count, size, floor) = all.0 e in
            let at' : block.header.height ≡ next = ground arith in
            record {
              height = at';
              follows = (linked_iff bc.last_block next block at').0 link;
              hash = (str_eq_iff _ _).0 (not-false _ hash);
              work = not-false _ work;
              transactions = ground arith;
              size = ground arith;
              floor = ground arith;
            },
        λ n. all.1 (
          ground (arith, n.height),
          (linked_iff bc.last_block next block n.height).1 n.follows,
          ground (arith, (str_eq_iff block.hash (compute_hash sum256 block.header)).1 n.hash),
          ground (arith, n.work),
          ground (arith, n.transactions),
          ground (arith, n.size),
          ground (arith, n.floor),
        ),
      )
    where
      not-false : (b : Bool) → not b ≡ false → b ≡ true
      not-false true e = refl
      not-false false e = cc
