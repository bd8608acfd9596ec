-- ===== src/Storage/Database.antt =====
-- bbolt as an interface: the operations that the store calls, and what their documentation says.
use devinsidercoin.Prelude.{
  ℕ, ◌≤◌, ◌≡◌, ◌↔◌, refl, sym, ap, ◌∙◌, true, arith, str_eq_iff, str_eq_refl, Bool, ◌&&◌, ◌||◌, ltb,
  false, Option, none, some, List, [], ◌∷◌, All, ◌==◌, length, if◌then◌else◌, str_eq,
}
use devinsidercoin.Prelude.Dict.{lookup}

pub data Bucket : Type 0 where
  blocks block_hashes balances stakes tx_index meta : Bucket

abbrev index : Bucket → ℕ
index blocks = 0
index block_hashes = 1
index balances = 2
index stakes = 3
index tx_index = 4
index meta = 5

bucket_at : ℕ → Bucket
bucket_at n =
    if n == 0
    then blocks
    else if n == 1
    then block_hashes
    else if n == 2
    then balances
    else if n == 3
    then stakes
    else if n == 4
    then tx_index
    else meta

bucket_at-index : (b : Bucket) → bucket_at (index b) ≡ b
unfolding bucket_at
bucket_at-index blocks = refl
bucket_at-index block_hashes = refl
bucket_at-index balances = refl
bucket_at-index stakes = refl
bucket_at-index tx_index = refl
bucket_at-index meta = refl

-- The same key of the same bucket.
abbrev pub same_place : Bucket → List ℕ → Bucket → List ℕ → Bool
same_place b k c j = index b == index c && str_eq k j

pub same_place_iff :
    (b c : Bucket) (k j : List ℕ) → (same_place b k c j ≡ true) ↔ ((b ≡ c) × (k ≡ j))
same_place_iff b c k j = (
  λ e.
      let at : index b ≡ index c = ground arith in
      (
        sym (bucket_at-index b) ∙ ap bucket_at at ∙ bucket_at-index c,
        ground (arith, str_eq_iff k j),
      ),
  λ (same_b, same_k). rw (same_b, same_k) (ground (arith, str_eq_refl j)),
)

-- bbolt compares keys byte by byte.
unfoldable pub key_lt : List ℕ → List ℕ → Bool
key_lt xs [] = false
key_lt [] (b ∷ ys) = true
key_lt (a ∷ xs) (b ∷ ys) = ltb a b || (a == b && key_lt xs ys)

unfoldable pub entries_from : List ℕ → List (List ℕ × List ℕ) → List (List ℕ × List ℕ)
entries_from k [] = []
entries_from k (e ∷ es) = let rest = entries_from k es in if key_lt e.0 k then rest else e ∷ rest

-- Each key is below those that follow it.
abbrev pub IsSorted : List (List ℕ × List ℕ) → Type 0
IsSorted [] = Unit
IsSorted (e ∷ es) = All (λ f. key_lt e.0 f.0 ≡ true) es × IsSorted es

-- `get` answers `none` for a missing key, `put` for an error. `cursor` lists a bucket in key order,
-- and `seek` lists it from a key on.
-- `flush` tells whether the pages of a transaction could be written to the file.
pub record Bolt (D : Type 0) : Type 0 where
  pub get : D → Bucket → List ℕ → Option (List ℕ)
  pub put : D → Bucket → List ℕ → List ℕ → Option D
  pub delete : D → Bucket → List ℕ → D
  pub cursor : D → Bucket → List (List ℕ × List ℕ)
  pub seek : D → Bucket → List ℕ → List (List ℕ × List ℕ)
  pub flush : D → Bool

-- What is written is read back and all else stays; a blank key is refused, and a key and a value
-- within the limits are not. The cursor lists
-- each key once, with its value, in the order of the keys.
pub record IsBolt (D : Type 0) ⦃db : Bolt D⦄ : Type 0 where
  pub get-put :
      (d d' : D) (b c : Bucket) (k j v : List ℕ)
      → db.put d b k v ≡ some d'
      → db.get d' c j ≡ (if same_place b k c j then some v else db.get d c j)
  pub get-delete :
      (d : D) (b c : Bucket) (k j : List ℕ)
      → db.get (db.delete d b k) c j ≡ (if same_place b k c j then none else db.get d c j)
  pub put_blank : (d : D) (b : Bucket) (v : List ℕ) → db.put d b [] v ≡ none
  pub lookup-cursor : (d : D) (b : Bucket) (k : List ℕ) → lookup k (db.cursor d b) ≡ db.get d b k
  pub seek-cursor :
      (d : D) (b : Bucket) (k : List ℕ) → db.seek d b k ≡ entries_from k (db.cursor d b)
  pub cursor-IsSorted : (d : D) (b : Bucket) → IsSorted (db.cursor d b)
  pub put_some :
      (d : D) (b : Bucket) (k v : List ℕ)
      → 1 ≤ length k
      → length k ≤ 32768
      → length v ≤ 2147483646
      → (d' : D) × (db.put d b k v ≡ some d')
