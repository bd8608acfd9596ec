-- ===== src/Storage/Write.antt =====
-- What a sequence of writes to one bucket leaves in the database.
use devinsidercoin.Prelude.{
  ℕ, ◌≡◌, refl, ◌∙◌, Bool, false, ◌||◌, Option, none, some, inl, inr, Option-cases, List, [], ◌∷◌,
  arith, if◌then◌else◌, Str, str_eq, str_eq_iff, map,
}
use devinsidercoin.Prelude.Dict.{Dict, lookup, IsDistinct}
use devinsidercoin.Storage.Database.{Bolt, IsBolt, Bucket, same_place}
use devinsidercoin.Storage.{write_all}

-- The last write to a key.
abbrev pub last_write : Str → List (Str × Option (List ℕ)) → Option (Option (List ℕ))
last_write j [] = none
last_write j ((k, v) ∷ ws) = elim (last_write j ws) [
  | some w ↦ some w
  | none ↦ if str_eq k j then some v else none
]

-- A key that was written has its last value; any other keeps its value.
abbrev pub overwritten : Option (Option (List ℕ)) → Option (List ℕ) → Option (List ℕ)
overwritten none old = old
overwritten (some v) old = v

overwritten_cons :
    (k j : Str) (v : Option (List ℕ)) (last : Option (Option (List ℕ))) (old : Option (List ℕ))
    → overwritten last (if str_eq k j then v else old)
      ≡ overwritten (elim last [ some w ↦ some w | none ↦ if str_eq k j then some v else none ]) old
overwritten_cons k j v none old = ground arith
overwritten_cons k j v (some w) old = refl

module _ {D : Type 0} ⦃db : Bolt D⦄ (laws : IsBolt D) where
  open laws use {get-put, get-delete}

  -- Writes to one bucket leave the others alone.
  pub get-write_all_other :
      (b c : Bucket) (j : Str) (ws : List (Str × Option (List ℕ))) (d d' : D)
      → ((k : Str) → same_place b k c j ≡ false)
      → write_all b ws d ≡ some d'
      → db.get d' c j ≡ db.get d c j
  unfolding write_all
  get-write_all_other b c j [] d d' apart e = ground arith
  get-write_all_other b c j ((k, none) ∷ ws) d d' apart e =
      get-write_all_other b c j ws (db.delete d b k) d' apart e
      ∙ get-delete d b c k j
      ∙ rw (apart k)
  get-write_all_other b c j ((k, some v) ∷ ws) d d' apart e = elim (Option-cases (db.put d b k v)) [
    | inl failed ↦ ground arith
    | inr (d1, done) ↦
        get-write_all_other b c j ws d1 d' apart (rw (done, write_all) at e)
        ∙ get-put d d1 b c k j v done
        ∙ rw (apart k)
  ]

  -- In the bucket that is written, each key has its last value.
  pub get-write_all :
      (b : Bucket) (j : Str) (ws : List (Str × Option (List ℕ))) (d d' : D)
      → ((k : Str) → same_place b k b j ≡ str_eq k j)
      → write_all b ws d ≡ some d'
      → db.get d' b j ≡ overwritten (last_write j ws) (db.get d b j)
  unfolding write_all
  get-write_all b j [] d d' here e = ground arith
  get-write_all b j ((k, none) ∷ ws) d d' here e =
      get-write_all b j ws (db.delete d b k) d' here e
      ∙ rw (get-delete d b b k j, here k) (overwritten_cons k j none (last_write j ws) _)
  get-write_all b j ((k, some v) ∷ ws) d d' here e = elim (Option-cases (db.put d b k v)) [
    | inl failed ↦ ground arith
    | inr (d1, done) ↦
        get-write_all b j ws d1 d' here (rw (done, write_all) at e)
        ∙ rw (get-put d d1 b b k j v done, here k)
            (overwritten_cons k j (some v) (last_write j ws) _)
  ]

-- The last writes from a map, in which each key occurs once, and from a list of keys.
module _ {V : Type 0} (encode : V → Option (List ℕ)) where
  last_write_absent :
      (j : Str) (m : Dict V)
      → lookup j m ≡ none
      → last_write j (map (λ e. (e.0, encode e.1)) m) ≡ none
  unfolding lookup
  last_write_absent j [] e = refl
  last_write_absent j ((k, v) ∷ m) e = ground (arith, last_write_absent j m)

  pub last_write-map :
      (j : Str) (m : Dict V)
      → IsDistinct m
      → last_write j (map (λ e. (e.0, encode e.1)) m)
        ≡ elim (lookup j m) [ none ↦ none | some v ↦ some (encode v) ]
  unfolding lookup
  last_write-map j [] h = refl
  last_write-map j ((k, v) ∷ m) h =
      ground (arith, str_eq_iff k j, last_write_absent j m, last_write-map j m h.1)

pub last_write_self :
    (j : Str) (m : Dict (Option (List ℕ))) → IsDistinct m → last_write j m ≡ lookup j m
unfolding lookup
last_write_self j [] h = refl
last_write_self j ((k, v) ∷ m) h = ground (arith, str_eq_iff k j, last_write_self j m h.1)

abbrev pub contains : Str → List Str → Bool
contains j [] = false
contains j (k ∷ ks) = str_eq k j || contains j ks

pub last_write-const :
    (j : Str) (v : List ℕ) (ks : List Str)
    → last_write j (map (λ k. (k, some v)) ks) ≡ (if contains j ks then some (some v) else none)
last_write-const j v [] = refl
last_write-const j v (k ∷ ks) = ground (arith, last_write-const j v ks)
