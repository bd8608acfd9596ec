-- ===== src/Storage/Reads.antt =====
-- Reading a committed block back, and the commits that fail.
use devinsidercoin.Prelude.{
  ℕ, suc, ltb, ◌+◌, ◌^◌, ◌<◌, ◌≡◌, refl, sym, ◌∙◌, ap, true, none, some, inl, inr, ◌⊎◌, Bool-cases,
  Option-cases, List, [], ◌∷◌, arith, ◌==◌, Str, str_eq, str_eq_iff, str_eq_refl, map,
}
use devinsidercoin.Prelude.Int.{pos, of_word64, to_word64}
use devinsidercoin.Prelude.Float64.{Float64}
use devinsidercoin.Bytes.Width.{of_big-put_big}
use devinsidercoin.Storage.Database.{Bolt, IsBolt, Bucket, blocks, block_hashes, tx_index, meta}
use devinsidercoin.Storage.Encoding.{Json}
use devinsidercoin.Storage.Write.{contains}
use devinsidercoin.Storage.Commit.{IsCommitted, Steps, commit_writes-Steps}
use devinsidercoin.Storage.{
  BlockCommit, height_key, key_to_height, best_height_key, get_best_height, get_block_count,
  write_all, update, commit_writes, commit_block, get_block_by_height, get_block_by_hash,
  get_tx_block_height, has_data,
}

pub key_to_height-height_key : (h : ℕ) → h < 2 ^ 64 → key_to_height (height_key h) ≡ h
unfolding key_to_height height_key
key_to_height-height_key h lt = of_big-put_big 8 h lt

-- Two heights that a uint64 holds have the same key exactly if they are equal.
pub height_key-eq :
    (h k : ℕ) → h < 2 ^ 64 → k < 2 ^ 64 → str_eq (height_key h) (height_key k) ≡ (h == k)
height_key-eq h k h_lt k_lt = elim (Bool-cases (h == k)) [
  | inl e ↦
      let same : h ≡ k = ground arith in rw same (str_eq_refl (height_key k) ∙ sym (ground arith))
  | inr e ↦ elim (Bool-cases (str_eq (height_key h) (height_key k))) [
    | inl s ↦
        let keys = (str_eq_iff _ _).0 s in
        let same : h ≡ k =
          sym (key_to_height-height_key h h_lt)
          ∙ ap key_to_height keys
          ∙ key_to_height-height_key k k_lt in
        absurd (ground arith)
    | inr s ↦ s ∙ sym e
  ]
]

of_word64-pos : (h : ℕ) → h < 2 ^ 63 → of_word64 h ≡ pos h
unfolding of_word64
of_word64-pos h lt = ground arith

module _ {D : Type 0} ⦃db : Bolt D⦄ where
  -- The best height that is stored determines the number of blocks.
  pub get_best_height-stored :
      (h : ℕ) (d : D)
      → h < 2 ^ 63
      → db.get d meta best_height_key ≡ some (height_key h)
      → get_best_height d ≡ pos h
  unfolding get_best_height
  get_best_height-stored h d lt e =
      rw (e, get_best_height) (rw (key_to_height-height_key h (omega arith)) (of_word64-pos h lt))

  pub get_block_count-stored :
      (h : ℕ) (d : D)
      → h < 2 ^ 63
      → db.get d meta best_height_key ≡ some (height_key h)
      → get_block_count d ≡ h + 1
  unfolding get_block_count
  get_block_count-stored h d lt e =
      rw (get_best_height-stored h d lt e) (unfold to_word64 in ground arith)

module _ {D : Type 0} ⦃db : Bolt D⦄ (laws : IsBolt D) where
  open laws use {put_blank}

  write_all_blank :
      (b : Bucket) (v : List ℕ) (ids : List Str) (d : D)
      → contains [] ids ≡ true
      → write_all b (map (λ id. (id, some v)) ids) d ≡ none
  unfolding write_all str_eq
  write_all_blank b v [] d listed = cc
  write_all_blank b v ([] ∷ ids) d listed = rw (put_blank d b v, write_all)
  write_all_blank b v ((n ∷ id) ∷ ids) d listed = elim (Option-cases (db.put d b (n ∷ id) v)) [
    | inl failed ↦ rw (failed, write_all)
    | inr (d1, done) ↦ rw (done, write_all) (write_all_blank b v ids d1 listed)
  ]

module _ {F : Type 0} ⦃fl : Float64 F⦄ ⦃js : Json F⦄ {D : Type 0} ⦃db : Bolt D⦄ where
  -- A block that was committed at a height that an int64 holds is found by its height and by its
  -- hash, and the count is one above it.
  pub committed_reads :
      (c : BlockCommit F) (d d' : D)
      → IsCommitted c d d'
      → c.height < 2 ^ 63
      → (get_block_count d' ≡ c.height + 1)
        × (get_block_by_height c.height d' ≡ some c.block_json)
        × (get_block_by_hash c.hash d' ≡ some c.block_json)
  unfolding get_block_by_height get_block_by_hash
  committed_reads c d d' w lt =
      let hk = height_key c.height in
      let stored : db.get d' blocks hk ≡ some c.block_json = w.block_at hk ∙ rw (str_eq_refl hk) in
      (
        get_block_count-stored c.height d' lt w.best_height,
        stored,
        rw (w.hash_at c.hash, str_eq_refl c.hash) stored,
      )

  -- A transaction of a committed block is found at the block's height, if a uint64 holds it.
  pub committed_transaction :
      (c : BlockCommit F) (d d' : D) (id : Str)
      → IsCommitted c d d'
      → c.height < 2 ^ 64
      → contains id c.tx_ids ≡ true
      → get_tx_block_height id d' ≡ some c.height
  unfolding get_tx_block_height
  committed_transaction c d d' id w lt listed =
      rw (w.tx_at id, listed) (ap (λ (n : ℕ). some n) (key_to_height-height_key c.height lt))

  -- Under bbolt's laws, which refuse blank keys, a commit with a blank hash, or with a transaction
  -- whose identifier is blank, fails.
  pub commit_block_blank :
      IsBolt D
      → (c : BlockCommit F) (d : D) → ((c.hash ≡ []) ⊎ (contains [] c.tx_ids ≡ true))
      → commit_block c d ≡ none
  unfolding commit_block update
  commit_block_blank laws c d blank = elim (Option-cases (commit_writes c d)) [
    | inl failed ↦ rw (failed, commit_block, update)
    | inr (d1, written) ↦ absurd (refused (commit_writes-Steps c d d1 written) blank)
  ]
    where
      refused : {d1 : D} → Steps c d d1 → ((c.hash ≡ []) ⊎ (contains [] c.tx_ids ≡ true)) → ⊥
      refused s (inl no_hash) =
          cc (rw no_hash at s.put_hash, laws.put_blank s.d1 block_hashes (height_key c.height))
      refused s (inr listed) =
          cc (s.put_ids, write_all_blank laws tx_index (height_key c.height) c.tx_ids s.d4 listed)

best_height_stored :
    {D : Type 0} ⦃db : Bolt D⦄ (d : D)
    → has_data d ≡ true
    → (n : ℕ) × (n < 2 ^ 63) × (get_best_height d ≡ pos n)
unfolding has_data get_best_height of_word64
best_height_stored ⦃db⦄ d has = elim (Option-cases (db.get d meta best_height_key)) [
  | inl e ↦ absurd (cc (rw (e, get_best_height) at has))
  | inr (v, e) ↦ elim (Bool-cases (ltb (key_to_height v) (2 ^ 63))) [
    | inl low ↦ (key_to_height v, ground arith, rw (e, get_best_height) (rw low refl))
    | inr high ↦ absurd (ground (arith, rw (e, get_best_height) at has))
  ]
]

-- In a database with data the count is one above the best height.
pub best-count :
    {D : Type 0} ⦃db : Bolt D⦄ (d : D)
    → has_data d ≡ true
    → suc (to_word64 (get_best_height d)) ≡ get_block_count d
unfolding get_block_count to_word64
best-count d has = let (n, low, e) = best_height_stored d has in rw e (ground arith)
