-- ===== src/Storage/Total.antt =====
-- When a commit succeeds.
use devinsidercoin.Prelude.{
  ℕ, ◌≤◌, ◌≡◌, refl, true, Option, none, some, List, [], ◌∷◌, map, length, arith, All, Str,
}
use devinsidercoin.Prelude.Dict.{Dict}
use devinsidercoin.Prelude.Float64.{Float64}
use devinsidercoin.Bytes.Width.{length-put_big}
use devinsidercoin.Storage.Database.{
  Bolt, IsBolt, Bucket, blocks, block_hashes, balances, stakes, tx_index, meta,
}
use devinsidercoin.Storage.Encoding.{Json}
use devinsidercoin.Storage.{
  BlockCommit, height_key, best_height_key, total_minted_key, float_to_bytes, write_all, update,
  commit_writes, commit_block,
}

-- Keys and values within bbolt's limits.
abbrev pub IsKey : Str → Type 0
IsKey k = (1 ≤ length k) × (length k ≤ 32768)

abbrev pub IsValue : List ℕ → Type 0
IsValue v = length v ≤ 2147483646

abbrev pub IsWrite : Str × Option (List ℕ) → Type 0
IsWrite (k, none) = Unit
IsWrite (k, some v) = IsKey k × IsValue v

height_key-IsKey : (h : ℕ) → IsKey (height_key h)
unfolding height_key
height_key-IsKey h = omega (arith, length-put_big 8 h)

height_key-IsValue : (h : ℕ) → IsValue (height_key h)
unfolding height_key
height_key-IsValue h = omega (arith, length-put_big 8 h)

module _ {D : Type 0} ⦃db : Bolt D⦄ (laws : IsBolt D) where
  write_all_total :
      (b : Bucket) (ws : List (Str × Option (List ℕ))) (d : D)
      → All IsWrite ws
      → (d' : D) × (write_all b ws d ≡ some d')
  unfolding write_all
  write_all_total b [] d fit = (d, refl)
  write_all_total b ((k, none) ∷ ws) d fit = write_all_total b ws (db.delete d b k) fit.1
  write_all_total b ((k, some v) ∷ ws) d fit =
      let (d1, put) = laws.put_some d b k v fit.0.0.0 fit.0.0.1 fit.0.1 in
      let (d2, rest) = write_all_total b ws d1 fit.1 in (d2, rw (put, write_all) rest)

module _ {F : Type 0} ⦃fl : Float64 F⦄ ⦃js : Json F⦄ where
  -- Every key and value of the commit is within the limits.
  pub record IsStorable (c : BlockCommit F) : Type 0 where
    pub hash : IsKey c.hash
    pub block_json : IsValue c.block_json
    pub balances : All (λ e. IsKey e.0 × IsValue (float_to_bytes e.1)) c.balances
    pub stakes : All IsWrite c.stakes
    pub tx_ids : All IsKey c.tx_ids
    pub total_minted : IsValue (float_to_bytes c.total_minted)

  balance_writes :
      (m : Dict F)
      → All (λ e. IsKey e.0 × IsValue (float_to_bytes e.1)) m
      → All IsWrite (map (λ e. (e.0, some (float_to_bytes e.1))) m)
  balance_writes [] h = tt
  balance_writes ((k, f) ∷ m) h = (h.0, balance_writes m h.1)

id_writes :
    (height : ℕ) (ids : List Str)
    → All IsKey ids
    → All IsWrite (map (λ id. (id, some (height_key height))) ids)
id_writes height [] h = tt
id_writes height (id ∷ ids) h = ((h.0, height_key-IsValue height), id_writes height ids h.1)

module _ {F : Type 0} ⦃fl : Float64 F⦄ ⦃js : Json F⦄ {D : Type 0} ⦃db : Bolt D⦄ where
  -- Under bbolt's laws, a commit whose keys and values are within bbolt's limits succeeds if the pages
  -- can be written to the file.
  pub commit_block_total :
      IsBolt D
      → (c : BlockCommit F) (d : D) → IsStorable c
      → ((after : D) → db.flush after ≡ true)
      → (d' : D) × (commit_block c d ≡ some d')
  unfolding commit_block update commit_writes
  commit_block_total laws c d fit flushed =
      let key = height_key-IsKey c.height in
      let value = height_key-IsValue c.height in
      let (d1, p1) =
        laws.put_some d blocks (height_key c.height) c.block_json key.0 key.1 fit.block_json in
      let (d2, p2) =
        laws.put_some d1 block_hashes c.hash (height_key c.height) fit.hash.0 fit.hash.1 value in
      let (d3, p3) = write_all_total laws balances _ d2 (balance_writes c.balances fit.balances) in
      let (d4, p4) = write_all_total laws stakes c.stakes d3 fit.stakes in
      let (d5, p5) = write_all_total laws tx_index _ d4 (id_writes c.height c.tx_ids fit.tx_ids) in
      let (d6, p6) =
        laws.put_some d5 meta best_height_key (height_key c.height) (omega arith) (omega arith)
          value in
      let (d7, p7) =
        laws.put_some d6 meta total_minted_key (float_to_bytes c.total_minted) (omega arith)
          (omega arith) fit.total_minted in
      (d7, rw (p1, p2, p3, p4, p5, p6, p7, flushed d7) refl)
