-- ===== src/Examples/Store.antt =====
-- The database as a list of entries, and its laws.
use devinsidercoin.Prelude.{
  ℕ, ◌≡◌, refl, ◌∙◌, Bool, true, false, Option, none, some, inl, inr, Bool-cases, List, [], ◌∷◌,
  arith, leb, ◌&&◌, length, if◌then◌else◌, Str, str_eq_refl, str_eq, str_eq_iff,
}
use devinsidercoin.Prelude.Dict.{lookup}
use devinsidercoin.Storage.Database.{
  Bolt, IsBolt, Bucket, same_place, same_place_iff, entries_from, IsSorted, key_lt,
}
use devinsidercoin.Storage.Order.{AreAbove, above_trans, key_lt_total}

pub record Entry : Type 0 where
  pub bucket : Bucket
  pub key : Str
  pub value : List ℕ

unfoldable pub find : List Entry → Bucket → Str → Option (List ℕ)
find [] c j = none
find (e ∷ es) c j = if same_place e.bucket e.key c j then some e.value else find es c j

unfoldable pub drop_key : List Entry → Bucket → Str → List Entry
drop_key [] b k = []
drop_key (e ∷ es) b k =
    let rest = drop_key es b k in if same_place b k e.bucket e.key then rest else e ∷ rest

unfoldable pub store_key : List Entry → Bucket → Str → List ℕ → Option (List Entry)
store_key es b k v =
    if leb 1 (length k) && (leb (length k) 32768 && leb (length v) 2147483646)
    then some (record { bucket = b; key = k; value = v } ∷ drop_key es b k)
    else none

-- An entry put in its place among the keys, in place of one with its key.
unfoldable pub place : Str → List ℕ → List (Str × List ℕ) → List (Str × List ℕ)
place k v [] = (k, v) ∷ []
place k v ((j, w) ∷ es) =
    let rest = place k v es in
    if str_eq j k then (k, v) ∷ es else if key_lt k j then (k, v) ∷ (j, w) ∷ es else (j, w) ∷ rest

unfoldable pub listing : List Entry → Bucket → List (Str × List ℕ)
unfolding place
listing [] b = []
listing (e ∷ es) b =
    let rest = listing es b in
    if same_place e.bucket [] b [] then place e.key e.value rest else rest

instance unfoldable pub entries : Bolt (List Entry)
entries = record {
  get = find;
  put = store_key;
  delete = drop_key;
  cursor = listing;
  seek = λ es b k. entries_from k (listing es b);
  flush = λ es. true;
}

find-drop_key :
    (es : List Entry) (b c : Bucket) (k j : Str)
    → find (drop_key es b k) c j ≡ (if same_place b k c j then none else find es c j)
unfolding find drop_key
find-drop_key [] b c k j = ground arith
find-drop_key (e ∷ es) b c k j = elim (Bool-cases (same_place b k e.bucket e.key)) [
  | inl same ↦
      let (bucket, key) = (same_place_iff b e.bucket k e.key).0 same in
      let here : same_place b k c j ≡ same_place e.bucket e.key c j = rw (bucket, key) refl in
      rw same (
        find-drop_key es b c k j
        ∙ merged (same_place b k c j) (same_place e.bucket e.key c j) e.value (find es c j) here)
  | inr apart ↦ elim (Bool-cases (same_place e.bucket e.key c j)) [
    | inl hit ↦
        let (bucket, key) = (same_place_iff e.bucket c e.key j).0 hit in
        let off : same_place b k c j ≡ false = rw (bucket, key) at apart in
        rw (apart, hit, off) refl
    | inr miss ↦ rw (apart, miss) (find-drop_key es b c k j)
  ]
]
  where
    merged :
        (x y : Bool) (v : List ℕ) (o : Option (List ℕ))
        → x ≡ y
        → (if x then none else o) ≡ (if x then none else if y then some v else o)
    merged true y v o e = refl
    merged false true v o e = cc
    merged false false v o e = refl

lookup-place :
    (k j : Str) (v : List ℕ) (es : List (Str × List ℕ))
    → IsSorted es
    → lookup j (place k v es) ≡ (if str_eq k j then some v else lookup j es)
unfolding place lookup
lookup-place k j v [] sorted = refl
lookup-place k j v ((i, w) ∷ es) sorted =
    ground (arith, str_eq_iff k j, str_eq_iff i k, str_eq_iff i j, lookup-place k j v es sorted.1)

place-AreAbove :
    (i k : Str) (v : List ℕ) (es : List (Str × List ℕ))
    → key_lt i k ≡ true
    → AreAbove i es
    → AreAbove i (place k v es)
unfolding place
place-AreAbove i k v [] lt above = (lt, tt)
place-AreAbove i k v ((j, w) ∷ es) lt above =
    let rest = place-AreAbove i k v es lt above.1 in
    elim (Bool-cases (str_eq j k)) [
      | inl same ↦ rw same (lt, above.1)
      | inr apart ↦ elim (Bool-cases (key_lt k j)) [
        | inl low ↦ rw (apart, low) (lt, above)
        | inr high ↦ rw (apart, high) (above.0, rest)
      ]
    ]

place-IsSorted :
    (k : Str) (v : List ℕ) (es : List (Str × List ℕ)) → IsSorted es → IsSorted (place k v es)
unfolding place
place-IsSorted k v [] s = (tt, tt)
place-IsSorted k v ((j, w) ∷ es) s = elim (Bool-cases (str_eq j k)) [
  | inl same ↦ let key : j ≡ k = (str_eq_iff j k).0 same in rw same (rw key at s)
  | inr apart ↦ elim (Bool-cases (key_lt k j)) [
    | inl low ↦ rw (apart, low) ((low, above_trans k j es low s.0), s)
    | inr high ↦
        let swapped : str_eq k j ≡ false = ground (arith, str_eq_iff j k, str_eq_iff k j) in
        rw (apart, high)
          (place-AreAbove j k v es (key_lt_total k j high swapped) s.0, place-IsSorted k v es s.1)
  ]
]

listing-IsSorted : (es : List Entry) (b : Bucket) → IsSorted (listing es b)
unfolding listing
listing-IsSorted [] b = tt
listing-IsSorted (e ∷ es) b = elim (Bool-cases (same_place e.bucket [] b [])) [
  | inl same ↦ rw same (place-IsSorted e.key e.value (listing es b) (listing-IsSorted es b))
  | inr apart ↦ rw apart (listing-IsSorted es b)
]

lookup-listing : (es : List Entry) (b : Bucket) (k : Str) → lookup k (listing es b) ≡ find es b k
unfolding find listing lookup
lookup-listing [] b k = refl
lookup-listing (e ∷ es) b k = ground (
  arith,
  lookup-listing es b k,
  lookup-place e.key k e.value (listing es b) (listing-IsSorted es b),
  str_eq_refl [],
)

pub entries-IsBolt : IsBolt (List Entry)
unfolding entries store_key find
entries-IsBolt = record {
  get-put = λ d d' b c k j v e. ground (arith, find-drop_key d b c k j);
  get-delete = λ d b c k j. find-drop_key d b c k j;
  put_blank = λ d b v. refl;
  lookup-cursor = lookup-listing;
  seek-cursor = λ d b k. refl;
  cursor-IsSorted = listing-IsSorted;
  put_some = λ d b k v lo hi fits.
      (record { bucket = b; key = k; value = v } ∷ drop_key d b k, ground arith);
}
