-- ===== src/Storage/Range.antt =====
-- internal/storage/store.go, `GetBlocksFrom`: which blocks it lists.
use devinsidercoin.Prelude.{
  ℕ, zero, suc, ◌/◌, ◌%◌, ◌^◌, ◌<◌, ◌≡◌, refl, sym, ◌∙◌, ◌&&◌, ◌||◌, none, inl, inr, Bool-cases,
  List, [], ◌∷◌, ◌++◌, length, ltb, ◌==◌, arith, if◌then◌else◌, str_eq, str_eq_iff,
}
use devinsidercoin.Prelude.Dict.{Dict, lookup}
use devinsidercoin.Prelude.Powers.{pow256-suc}
use devinsidercoin.Bytes.{put_big}
use devinsidercoin.Bytes.Width.{length-put_big}
use devinsidercoin.Storage.Database.{Bolt, IsBolt, blocks, key_lt, entries_from}
use devinsidercoin.Storage.{height_key, get_block_by_height}

key_lt-append :
    (xs ys : List ℕ) (a b : ℕ)
    → length xs ≡ length ys
    → key_lt (xs ++ (a ∷ [])) (ys ++ (b ∷ [])) ≡ (key_lt xs ys || (str_eq xs ys && ltb a b))
unfolding key_lt str_eq
key_lt-append [] [] a b e = ground arith
key_lt-append [] (y ∷ ys) a b e = absurd (omega arith)
key_lt-append (x ∷ xs) [] a b e = absurd (omega arith)
key_lt-append (x ∷ xs) (y ∷ ys) a b e = ground (arith, key_lt-append xs ys a b (omega arith))

str_eq-append :
    (xs ys : List ℕ) (a b : ℕ)
    → length xs ≡ length ys
    → str_eq (xs ++ (a ∷ [])) (ys ++ (b ∷ [])) ≡ (str_eq xs ys && a == b)
unfolding str_eq
str_eq-append [] [] a b e = ground arith
str_eq-append [] (y ∷ ys) a b e = absurd (omega arith)
str_eq-append (x ∷ xs) [] a b e = absurd (omega arith)
str_eq-append (x ∷ xs) (y ∷ ys) a b e = ground (arith, str_eq-append xs ys a b (omega arith))

-- Big endian keys of one width are in the order of the numbers.
key_lt-put_big :
    (n v w : ℕ)
    → v < 256 ^ n
    → w < 256 ^ n
    → (key_lt (put_big n v) (put_big n w) ≡ ltb v w)
      × (str_eq (put_big n v) (put_big n w) ≡ (v == w))
unfolding key_lt str_eq put_big
key_lt-put_big zero v w v_lt w_lt = (ground arith, ground arith)
key_lt-put_big (suc n) v w v_lt w_lt =
    let same_length = length-put_big n (v / 256) ∙ sym (length-put_big n (w / 256)) in
    let (below, same) =
      key_lt-put_big n (v / 256) (w / 256) (omega (arith, pow256-suc n))
        (omega (arith, pow256-suc n)) in
    (
      key_lt-append (put_big n (v / 256)) (put_big n (w / 256)) (v % 256) (w % 256) same_length
          ∙ rw (below, same) (ground arith),
      str_eq-append (put_big n (v / 256)) (put_big n (w / 256)) (v % 256) (w % 256) same_length
          ∙ rw same (ground arith),
    )

pub height_key-lt :
    (h start : ℕ)
    → h < 2 ^ 64
    → start < 2 ^ 64
    → key_lt (height_key h) (height_key start) ≡ ltb h start
unfolding height_key
height_key-lt h start h_lt start_lt = (key_lt-put_big 8 h start (omega arith) (omega arith)).0

lookup-entries_from :
    (k j : List ℕ) (es : Dict (List ℕ))
    → lookup j (entries_from k es) ≡ (if key_lt j k then none else lookup j es)
unfolding entries_from lookup
lookup-entries_from k j [] = ground arith
lookup-entries_from k j ((i, v) ∷ es) = elim (Bool-cases (str_eq i j)) [
  | inl e ↦ let same = (str_eq_iff i j).0 e in rw same (ground (arith, lookup-entries_from k j es))
  | inr e ↦ ground (arith, lookup-entries_from k j es)
]

-- Under bbolt's laws, `GetBlocksFrom` goes through the key of a height exactly if it is the starting
-- height or above and a block is stored there, and lists that block. Both heights are ones that a
-- uint64 holds.
pub lookup-get_blocks_from :
    {D : Type 0} ⦃db : Bolt D⦄
    → IsBolt D
    → (d : D) (h start : ℕ) → h < 2 ^ 64
    → start < 2 ^ 64
    → lookup (height_key h) (db.seek d blocks (height_key start))
      ≡ (if ltb h start then none else get_block_by_height h d)
unfolding get_block_by_height
lookup-get_blocks_from ⦃db⦄ laws d h start h_lt start_lt =
    rw
      (
        laws.seek-cursor d blocks (height_key start),
        lookup-entries_from (height_key start) (height_key h) (db.cursor d blocks),
        height_key-lt h start h_lt start_lt,
        laws.lookup-cursor d blocks (height_key h),
      )
      refl
