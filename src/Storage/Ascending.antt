-- ===== src/Storage/Ascending.antt =====
-- internal/storage/store.go, `GetBlocksFrom`: the order of what it lists.
use devinsidercoin.Prelude.{
  ℕ, zero, suc, ◌+◌, ◌-◌, ◌≤◌, ◌<◌, ◌^◌, ◌≡◌, refl, sym, ap, ◌∙◌, true, false, some, inl, inr,
  Bool-cases, List, [], ◌∷◌, map, All, arith, ltb, ◌==◌, Str, str_eq, str_eq_iff,
}
use devinsidercoin.Prelude.Dict.{Dict, lookup}
use devinsidercoin.Storage.Database.{Bolt, IsBolt, IsSorted, blocks, key_lt, entries_from}
use devinsidercoin.Storage.{height_key, get_block_by_height, blocks_between, get_blocks_from}
use devinsidercoin.Storage.Order.{
  sorted-IsDistinct, All-lookup, All-of_lookup, All-entries_from, entries_from-IsSorted,
  entries_from-from,
}
use devinsidercoin.Storage.Range.{height_key-lt, lookup-get_blocks_from}
use devinsidercoin.Storage.Reads.{height_key-eq}

-- The keys are those of heights from the first number to below the second.
abbrev pub AreHeights : ℕ → ℕ → Dict (List ℕ) → Type 0
AreHeights low high es = All (λ e. (h : ℕ) × (low ≤ h) × (h < high) × (e.0 ≡ height_key h)) es

-- Every height from the first number to below the second has an entry.
abbrev pub HasHeights : ℕ → ℕ → Dict (List ℕ) → Type 0
HasHeights low high es =
    (h : ℕ) → low ≤ h → h < high → (v : List ℕ) × (lookup (height_key h) es ≡ some v)

raise :
    (low high : ℕ) (es : Dict (List ℕ))
    → high ≤ 2 ^ 64
    → low < high
    → All (λ e. key_lt (height_key low) e.0 ≡ true) es
    → AreHeights low high es
    → AreHeights (suc low) high es
raise low high [] bound lt above all = tt
raise low high (e ∷ es) bound lt above all =
    let (h, from, below, key) = all.0 in
    let order : key_lt (height_key low) (height_key h) ≡ true = rw (← key) above.0 in
    let less : ltb low h ≡ true = sym (height_key-lt low h (omega arith) (omega arith)) ∙ order in
    ((h, ground arith, below, key), raise low high es bound lt above.1 all.1)

-- The first entry in the order of the keys is the one of the lowest height.
first_height :
    (low high h : ℕ) (k : Str) (v w : List ℕ) (es : Dict (List ℕ))
    → high ≤ 2 ^ 64
    → low ≤ h
    → h < high
    → k ≡ height_key h
    → All (λ e. key_lt k e.0 ≡ true) es
    → lookup (height_key low) ((k, v) ∷ es) ≡ some w
    → h ≡ low
unfolding lookup
first_height low high h k v w es bound from below key above found =
    elim (Bool-cases (str_eq k (height_key low))) [
      | inl hit ↦
          let same : str_eq (height_key h) (height_key low) ≡ true = rw (← key) hit in
          let equal : h == low ≡ true =
            sym (height_key-eq h low (omega arith) (omega arith)) ∙ same in
          ground arith
      | inr miss ↦
          let order =
            All-lookup (λ e. key_lt k e.0 ≡ true) (height_key low) w es above (rw miss at found) in
          let less : ltb h low ≡ true =
            sym (height_key-lt h low (omega arith) (omega arith)) ∙ rw (← key) order in
          absurd (ground arith)
    ]

skipped :
    (low j : ℕ) (k : Str) (v : List ℕ) (es : Dict (List ℕ))
    → k ≡ height_key low
    → low < j
    → low < 2 ^ 64
    → j < 2 ^ 64
    → lookup (height_key j) ((k, v) ∷ es) ≡ lookup (height_key j) es
unfolding lookup
skipped low j k v es key lt low_lt j_lt =
    let apart : low == j ≡ false = ground arith in
    let differ : str_eq k (height_key j) ≡ false =
      rw key (height_key-eq low j low_lt j_lt ∙ apart) in
    rw differ refl

raised :
    (low high : ℕ) (k : Str) (v : List ℕ) (es : Dict (List ℕ))
    → high ≤ 2 ^ 64
    → low < high
    → k ≡ height_key low
    → All (λ e. key_lt k e.0 ≡ true) es
    → AreHeights low high es
    → AreHeights (low + 1) high es
raised low high k v es bound lt key above all =
    let next : low + 1 ≡ suc low = omega arith in
    rw next (raise low high es bound lt (rw key at above) all)

within :
    (start count : ℕ) (es : Dict (List ℕ))
    → start ≤ count
    → count ≤ 2 ^ 63
    → All (λ e. (h : ℕ) × (h < count) × (e.0 ≡ height_key h)) es
    → All (λ e. key_lt e.0 (height_key start) ≡ false) es
    → AreHeights start count es
within start count [] le bound heights from = tt
within start count (e ∷ es) le bound heights from =
    let (h, below, key) = heights.0 in
    let order : ltb h start ≡ false =
      sym (height_key-lt h start (omega arith) (omega arith)) ∙ rw (← key) from.0 in
    ((h, ground arith, below, key), within start count es le bound heights.1 from.1)

module _ {D : Type 0} ⦃db : Bolt D⦄ where
  listed :
      (n low : ℕ) (es : Dict (List ℕ)) (d : D)
      → low + n ≤ 2 ^ 64
      → IsSorted es
      → AreHeights low (low + n) es
      → HasHeights low (low + n) es
      → ((h : ℕ) → low ≤ h → h < low + n → lookup (height_key h) es ≡ get_block_by_height h d)
      → map (λ e. e.1) es ≡ blocks_between n low d
  unfolding blocks_between lookup
  listed zero low [] d bound sorted all has same = refl
  listed zero low (e ∷ es) d bound sorted all has same =
      let (h, from, below, key) = all.0 in absurd (omega arith)
  listed (suc n) low [] d bound sorted all has same =
      let (v, found) = has low (omega arith) (omega arith) in absurd (cc found)
  listed (suc n) low ((k, v) ∷ es) d bound sorted all has same =
      let (h, from, below, key) = all.0 in
      let (w, found) = has low (omega arith) (omega arith) in
      let first = first_height low (low + suc n) h k v w es bound from below key sorted.0 found in
      let key_low : k ≡ height_key low = key ∙ ap height_key first in
      let here : str_eq k (height_key low) ≡ true = (str_eq_iff k (height_key low)).1 key_low in
      let stored : get_block_by_height low d ≡ some v =
        sym (same low (omega arith) (omega arith)) ∙ rw here refl in
      let reach : low + 1 + n ≡ low + suc n = omega arith in
      let skip = λ (j : ℕ) (above : low + 1 ≤ j) (lt : j < low + suc n).
        skipped low j k v es key_low (omega arith) (omega arith) (omega arith) in
      rw (stored, blocks_between)
        (ap (λ vs. v ∷ vs)
          (listed n (low + 1) es d (omega arith) sorted.1
            (rw reach (raised low (low + suc n) k v es bound (omega arith) key_low sorted.0 all.1))
            (λ j above lt.
              let (x, at) = has j (omega arith) (omega arith) in
              (x, sym (skip j above (omega arith)) ∙ at))
            (λ j above lt. sym (skip j above (omega arith)) ∙ same j (omega arith) (omega arith))))

  -- Every key of the blocks' bucket is that of a height below the count.
  abbrev pub IsExact : ℕ → D → Type 0
  IsExact count d =
      (k v : List ℕ) → db.get d blocks k ≡ some v → (h : ℕ) × (h < count) × (k ≡ height_key h)

  -- Under bbolt's laws, if the blocks' bucket has the heights below a count and no others, then the
  -- blocks from a height on are those at the heights up to the count, one after the other.
  pub get_blocks_from-blocks_between :
      IsBolt D
      → (start count : ℕ) (d : D) → start ≤ count
      → count ≤ 2 ^ 63
      → IsExact count d
      → ((h : ℕ) → h < count → (v : List ℕ) × (get_block_by_height h d ≡ some v))
      → get_blocks_from start d ≡ blocks_between (count - start) start d
  unfolding get_blocks_from
  get_blocks_from-blocks_between laws start count d le bound exact stored =
      let es = db.seek d blocks (height_key start) in
      let cursor = db.cursor d blocks in
      let sorted = laws.cursor-IsSorted d blocks in
      let heights =
        All-of_lookup (λ e. (h : ℕ) × (h < count) × (e.0 ≡ height_key h)) cursor
          (sorted-IsDistinct cursor sorted)
          (λ k v e. exact k v (sym (laws.lookup-cursor d blocks k) ∙ e)) in
      let seek : es ≡ entries_from (height_key start) cursor =
        laws.seek-cursor d blocks (height_key start) in
      let end : start + (count - start) ≡ count = omega arith in
      let listed_at : (h : ℕ)
          → start ≤ h
          → h < count
          → lookup (height_key h) es ≡ get_block_by_height h d =
        λ h above lt.
          lookup-get_blocks_from laws d h start (omega arith) (omega arith) ∙ ground arith in
      listed (count - start) start es d (omega arith)
        (rw seek (entries_from-IsSorted (height_key start) cursor sorted))
        (rw (end, seek)
          (within start count (entries_from (height_key start) cursor) le bound
            (All-entries_from _ (height_key start) cursor heights)
            (entries_from-from (height_key start) cursor)))
        (λ h above lt.
          let (v, at) = stored h (omega arith) in (v, listed_at h above (omega arith) ∙ at))
        (λ h above lt. listed_at h above (omega arith))
