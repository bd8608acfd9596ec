-- ===== src/Chain/Linked.antt =====
-- The blocks that are stored form a chain of hashes.
use devinsidercoin.Prelude.{
  ℕ, suc, ◌≤◌, ◌<◌, ◌^◌, ◌≡◌, refl, sym, ◌∙◌, ap, true, false, Option, none, some, inl, inr, List,
  arith, Bool-cases, ◌==◌, if◌then◌else◌, length, str_eq, str_eq_iff,
}
use devinsidercoin.Prelude.Float64.{Float64}
use devinsidercoin.Config.{NetworkConfig}
use devinsidercoin.Block.{Block, compute_hash}
use devinsidercoin.Pow.{check_proof_of_work, bits_to_target, progressive_difficulty_floor}
use devinsidercoin.Storage.Database.{Bolt, IsBolt, blocks}
use devinsidercoin.Storage.Encoding.{Json}
use devinsidercoin.Storage.Ascending.{IsExact}
use devinsidercoin.Storage.Commit.{IsCommitted}
use devinsidercoin.Storage.Reads.{height_key-eq}
use devinsidercoin.Storage.{BlockCommit, height_key, get_block_count, get_block_by_height}
use devinsidercoin.Chain.Validate.{IsNext, Follows}
use devinsidercoin.Chain.Add.{IsAdded, IsConnected, add_block-IsAdded}
use devinsidercoin.Chain.{
  Blockchain, BlockError, bad_height, bad_prev_hash, bad_hash, insufficient_work,
  too_many_transactions, block_too_large, below_floor, commit_failed, load_block, block_commit,
  apply_effects, add_block,
}

-- The block is within the configured limits of transactions, size and difficulty.
pub record IsWithin {F : Type 0} ⦃js : Json F⦄ (config : NetworkConfig F) (block : Block F)
    : Type 0 where
  pub transactions : length block.transactions ≤ config.max_block_transactions
  pub size : length (js.marshal_block block) ≤ config.max_block_size
  pub floor :
      bits_to_target block.header.bits
      ≤ bits_to_target (
          progressive_difficulty_floor block.header.height config.difficulty_epoch_blocks
            config.min_difficulty_bits)

-- A block of the height, with its own hash and, unless it is the genesis block, with enough work and
-- within the limits, has been read.
pub record IsSound {F : Type 0} ⦃js : Json F⦄ (sum256 : List ℕ → List ℕ) (config : NetworkConfig F)
    (h : ℕ) (read : Option (Block F)) : Type 0 where
  pub block : Block F
  pub loaded : read ≡ some block
  pub height : block.header.height ≡ h
  pub hash : block.hash ≡ compute_hash sum256 block.header
  pub work : (1 ≤ h) → check_proof_of_work block.hash block.header.bits ≡ true
  pub within : (1 ≤ h) → IsWithin config block

module _ (sum256 : List ℕ → List ℕ) {F : Type 0} ⦃js : Json F⦄ {D : Type 0} ⦃db : Bolt D⦄ where
  -- Below the count a block is stored at every height and nowhere else, it names the hash of the
  -- block under it, and the last block in memory is the one on top.
  pub record IsLinked (bc : Blockchain F D) : Type 0 where
    pub bounded : get_block_count bc.store ≤ 2 ^ 63
    pub stored_at :
        (h : ℕ) → h < get_block_count bc.store → IsSound sum256 bc.config h (load_block h bc.store)
    pub exact : IsExact (get_block_count bc.store) bc.store
    pub links :
        (h : ℕ) (under block : Block F)
        → suc h < get_block_count bc.store
        → load_block h bc.store ≡ some under
        → load_block (suc h) bc.store ≡ some block
        → block.header.prev_hash ≡ under.hash
    pub last : (h : ℕ) → suc h ≡ get_block_count bc.store → load_block h bc.store ≡ bc.last_block

Follows-some :
    {F : Type 0} (o : Option (Block F)) (last block : Block F)
    → o ≡ some last
    → Follows o block
    → block.header.prev_hash ≡ last.hash
Follows-some none last block e f = cc
Follows-some (some b) last block e f = cc (e, f)

module _ {F : Type 0} ⦃fl : Float64 F⦄ ⦃js : Json F⦄ {D : Type 0} ⦃db : Bolt D⦄ where
  pub load_block-committed :
      (c : BlockCommit F) (d d' : D) (h : ℕ)
      → IsCommitted c d d'
      → c.height < 2 ^ 63
      → h < 2 ^ 63
      → load_block h d'
        ≡ (if c.height == h then js.unmarshal_block c.block_json else load_block h d)
  unfolding load_block get_block_by_height
  load_block-committed c d d' h w c_lt lt =
      let same = height_key-eq c.height h (omega arith) (omega arith) in
      elim (Bool-cases (c.height == h)) [
        | inl e ↦ rw (w.block_at (height_key h), same, e) refl
        | inr e ↦ rw (w.block_at (height_key h), same, e) refl
      ]

  -- The states that calls of `AddBlock` reach, with blocks that survive their encoding and heights
  -- that an int64 holds.
  pub data Reaches (sum256 : List ℕ → List ℕ) (bc : Blockchain F D) : Blockchain F D → Type 0 where
    at_start : Reaches sum256 bc bc
    after_add :
        (now : Blockchain F D) (block : Block F)
        → Reaches sum256 bc now
        → block.header.height < 2 ^ 63
        → js.unmarshal_block (js.marshal_block block) ≡ some block
        → Reaches sum256 bc (add_block sum256 now block).1

  module _ (sum256 : List ℕ → List ℕ) (laws : IsBolt D) where
    connected-IsLinked :
        (bc after : Blockchain F D) (block : Block F)
        → block.header.height < 2 ^ 63
        → js.unmarshal_block (js.marshal_block block) ≡ some block
        → IsNext sum256 bc block
        → IsConnected bc block after
        → IsLinked sum256 bc
        → IsLinked sum256 after
    connected-IsLinked bc after block low decoded next c linked = record {
      bounded = rw c.count (omega arith);
      stored_at = λ h lt. elim (Bool-cases (h == block.header.height)) [
        | inl e ↦
            let same : h ≡ block.header.height = ground arith in
            record {
              block = block;
              loaded = ap (λ k. load_block {F = F} k after.store) same ∙ top;
              height = sym same;
              hash = next.hash;
              work = λ later. next.work;
              within = λ later. rw c.config (record {
                transactions = next.transactions;
                size = next.size;
                floor = next.floor;
              });
            }
        | inr e ↦
            let under : h < block.header.height = ground (arith, lt, c.count) in
            let before = linked.stored_at h (rw (← next.height) under) in
            rw (below h under, c.config) before
      ];
      exact = connected_exact;
      links = λ h b b' lt e1 e2.
          let under : h < block.header.height = ground (arith, lt, c.count) in
          let e1' = sym (below h under) ∙ e1 in
          elim (Bool-cases (suc h == block.header.height)) [
            | inl e ↦
                let same : suc h ≡ block.header.height = ground arith in
                let new : b' ≡ block = cc (e2, same, top) in
                let old = sym (linked.last h (same ∙ next.height)) ∙ e1' in
                rw new (Follows-some bc.last_block b block old (next.follows (ground arith)))
            | inr e ↦
                let low_h : suc h < block.header.height = ground arith in
                linked.links h b b' (rw (← next.height) low_h) e1' (sym (below (suc h) low_h) ∙ e2)
          ];
      last = λ h e.
          let same : h ≡ block.header.height = ground (arith, c.count) in
          ap (λ k. load_block {F = F} k after.store) same ∙ top ∙ sym c.last_block;
    }
      where
        top : load_block block.header.height after.store ≡ some block
        top = unfold load_block in rw c.by_height decoded

        connected_exact : IsExact (get_block_count after.store) after.store
        connected_exact k v e = elim (Bool-cases (str_eq (height_key block.header.height) k)) [
          | inl hit ↦ (block.header.height, omega (arith, c.count), sym ((str_eq_iff _ k).0 hit))
          | inr miss ↦
              let kept : db.get after.store blocks k ≡ db.get bc.store blocks k =
                unfold block_commit in rw miss at (c.committed.block_at k) in
              let moved : db.get bc.store blocks k ≡ some v = sym kept ∙ e in
              let (h, lt, key) = linked.exact k v moved in
              (h, omega (arith, c.count, next.height), key)
        ]

        below :
            (h : ℕ)
            → h < block.header.height
            → load_block {F = F} h after.store ≡ load_block h bc.store
        below h lt =
            let apart : block.header.height == h ≡ false = ground arith in
            load_block-committed (block_commit bc block) bc.store after.store h c.committed
              (unfold block_commit in low) (omega arith)
            ∙ unfold block_commit in rw apart refl

    -- Adding a block that survives its encoding, at a height that an int64 holds, keeps the chain of
    -- hashes, however the call ends.
    pub add_block-IsLinked :
        (bc : Blockchain F D) (block : Block F)
        → block.header.height < 2 ^ 63
        → js.unmarshal_block (js.marshal_block block) ≡ some block
        → IsLinked sum256 bc
        → IsLinked sum256 (add_block sum256 bc block).1
    unfolding apply_effects
    add_block-IsLinked bc block low decoded linked =
        cases (add_block sum256 bc block) (add_block-IsAdded laws sum256 bc block low)
      where
        cases :
            (r : Option BlockError × Blockchain F D)
            → IsAdded sum256 bc block r
            → IsLinked sum256 r.1
        cases (none, after) added =
            connected-IsLinked bc after block low decoded added.0 added.1 linked
        cases (some commit_failed, after) added = rw (added.2) (record {
          bounded = linked.bounded;
          stored_at = linked.stored_at;
          exact = linked.exact;
          links = linked.links;
          last = linked.last;
        })
        cases (some bad_height, after) added = rw added.1 linked
        cases (some bad_prev_hash, after) added = rw added.1 linked
        cases (some bad_hash, after) added = rw added.1 linked
        cases (some insufficient_work, after) added = rw added.1 linked
        cases (some too_many_transactions, after) added = rw added.1 linked
        cases (some block_too_large, after) added = rw added.1 linked
        cases (some below_floor, after) added = rw added.1 linked

    -- Under bbolt's laws, from a state whose blocks form a chain, every state that calls of `AddBlock`
    -- reach, with blocks that survive their encoding and heights that an int64 holds, has blocks that
    -- form a chain.
    pub Reaches-IsLinked :
        (bc after : Blockchain F D)
        → IsLinked sum256 bc
        → Reaches sum256 bc after
        → IsLinked sum256 after
    Reaches-IsLinked bc after linked at_start = linked
    Reaches-IsLinked bc after linked (after_add now block before low decoded) =
        add_block-IsLinked now block low decoded (Reaches-IsLinked bc now linked before)
