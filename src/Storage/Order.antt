-- ===== src/Storage/Order.antt =====
-- The order of a bucket's keys, and lists of entries in that order.
use devinsidercoin.Prelude.{
  ℕ, ◌≡◌, refl, true, false, none, some, inl, inr, Bool-cases, List, [], ◌∷◌, All, arith, Str,
  str_eq, str_eq_iff, str_eq_refl,
}
use devinsidercoin.Prelude.Dict.{Dict, lookup, IsDistinct}
use devinsidercoin.Storage.Database.{key_lt, entries_from, IsSorted}

pub key_lt_irrefl : (k : Str) → key_lt k k ≡ false
unfolding key_lt
key_lt_irrefl [] = refl
key_lt_irrefl (a ∷ k) = ground (arith, key_lt_irrefl k)

pub key_lt_trans : (x y z : Str) → key_lt x y ≡ true → key_lt y z ≡ true → key_lt x z ≡ true
unfolding key_lt
key_lt_trans x y [] p q = cc
key_lt_trans x [] (c ∷ z) p q = cc
key_lt_trans [] (b ∷ y) (c ∷ z) p q = refl
key_lt_trans (a ∷ x) (b ∷ y) (c ∷ z) p q = ground (arith, key_lt_trans x y z)

pub key_lt_total : (x y : Str) → key_lt x y ≡ false → str_eq x y ≡ false → key_lt y x ≡ true
unfolding key_lt str_eq
key_lt_total [] [] p q = cc
key_lt_total (a ∷ x) [] p q = refl
key_lt_total [] (b ∷ y) p q = cc
key_lt_total (a ∷ x) (b ∷ y) p q = ground (arith, key_lt_total x y)

-- The entries' keys are above the key.
abbrev pub AreAbove : Str → Dict (List ℕ) → Type 0
AreAbove k es = All (λ e. key_lt k e.0 ≡ true) es

pub above_trans :
    (j k : Str) (es : Dict (List ℕ)) → key_lt j k ≡ true → AreAbove k es → AreAbove j es
above_trans j k [] lt above = tt
above_trans j k (e ∷ es) lt above = (key_lt_trans j k e.0 lt above.0, above_trans j k es lt above.1)

lookup-above : (k : Str) (es : Dict (List ℕ)) → AreAbove k es → lookup k es ≡ none
unfolding lookup
lookup-above k [] above = refl
lookup-above k ((j, v) ∷ es) above = elim (Bool-cases (str_eq j k)) [
  | inl e ↦
      let same : j ≡ k = (str_eq_iff j k).0 e in
      let self : key_lt k k ≡ true = rw same at above.0 in absurd (cc (self, key_lt_irrefl k))
  | inr e ↦ rw e (lookup-above k es above.1)
]

pub sorted-IsDistinct : (es : Dict (List ℕ)) → IsSorted es → IsDistinct es
sorted-IsDistinct [] s = tt
sorted-IsDistinct ((k, v) ∷ es) s = (lookup-above k es s.0, sorted-IsDistinct es s.1)

pub All-lookup {κ} :
    (P : Str × List ℕ → Type κ) (k : Str) (v : List ℕ) (es : Dict (List ℕ))
    → All P es
    → lookup k es ≡ some v
    → P (k, v)
unfolding lookup
All-lookup P k v [] all e = absurd (cc e)
All-lookup P k v ((j, w) ∷ es) all e = elim (Bool-cases (str_eq j k)) [
  | inl hit ↦
      let same : j ≡ k = (str_eq_iff j k).0 hit in
      let value : w ≡ v = cc (rw hit at e) in rw (← same, ← value) all.0
  | inr miss ↦ All-lookup P k v es all.1 (rw miss at e)
]

pub All-of_lookup {κ} :
    (P : Str × List ℕ → Type κ) (es : Dict (List ℕ))
    → IsDistinct es
    → ((k : Str) (v : List ℕ) → lookup k es ≡ some v → P (k, v))
    → All P es
unfolding lookup
All-of_lookup P [] distinct h = tt
All-of_lookup P ((k, v) ∷ es) distinct h =
    (h k v (rw (str_eq_refl k) refl), All-of_lookup P es distinct.1 (λ j w e. h j w (later j w e)))
  where
    later : (j : Str) (w : List ℕ) → lookup j es ≡ some w → lookup j ((k, v) ∷ es) ≡ some w
    later j w e = elim (Bool-cases (str_eq k j)) [
      | inl hit ↦
          let same : k ≡ j = (str_eq_iff k j).0 hit in
          let gone : lookup j es ≡ none = rw same at distinct.0 in absurd (cc (gone, e))
      | inr miss ↦ rw miss e
    ]

pub All-entries_from {κ} :
    (P : Str × List ℕ → Type κ) (k : Str) (es : Dict (List ℕ))
    → All P es
    → All P (entries_from k es)
unfolding entries_from
All-entries_from P k [] all = tt
All-entries_from P k (e ∷ es) all = elim (Bool-cases (key_lt e.0 k)) [
  | inl low ↦ rw low (All-entries_from P k es all.1)
  | inr high ↦ rw high (all.0, All-entries_from P k es all.1)
]

pub entries_from-IsSorted :
    (k : Str) (es : Dict (List ℕ)) → IsSorted es → IsSorted (entries_from k es)
unfolding entries_from
entries_from-IsSorted k [] s = tt
entries_from-IsSorted k (e ∷ es) s = elim (Bool-cases (key_lt e.0 k)) [
  | inl low ↦ rw low (entries_from-IsSorted k es s.1)
  | inr high ↦
      rw high
        (All-entries_from (λ f. key_lt e.0 f.0 ≡ true) k es s.0, entries_from-IsSorted k es s.1)
]

-- What is listed from a key on is not below it.
pub entries_from-from :
    (k : Str) (es : Dict (List ℕ)) → All (λ e. key_lt e.0 k ≡ false) (entries_from k es)
unfolding entries_from
entries_from-from k [] = tt
entries_from-from k (e ∷ es) = elim (Bool-cases (key_lt e.0 k)) [
  | inl low ↦ rw low (entries_from-from k es)
  | inr high ↦ rw high (high, entries_from-from k es)
]
