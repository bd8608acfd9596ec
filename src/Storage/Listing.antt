-- ===== src/Storage/Listing.antt =====
-- The maps that the store reads out of a whole bucket.
use devinsidercoin.Prelude.{
  ℕ, ◌≡◌, refl, ◌∙◌, Option, none, some, List, [], ◌∷◌, foldl, arith, Str, str_eq_iff,
}
use devinsidercoin.Prelude.Dict.{Dict, lookup, insert, lookup-insert, IsDistinct, insert-IsDistinct}
use devinsidercoin.Prelude.Float64.{Float64}
use devinsidercoin.Storage.Database.{Bolt, IsBolt, balances, stakes}
use devinsidercoin.Storage.Encoding.{Json}
use devinsidercoin.Storage.Order.{sorted-IsDistinct}
use devinsidercoin.Storage.{bytes_to_float, get_all_balances, get_all_stakes_raw}

module _ {A B : Type 0} (g : A → B) where
  -- Filling a map from a list in which each key occurs once.
  pub lookup-fill :
      (k : Str) (entries : Dict A) (m : Dict B)
      → IsDistinct entries
      → lookup k (foldl (λ d e. insert e.0 (g e.1) d) m entries)
        ≡ elim (lookup k entries) [ none ↦ lookup k m | some v ↦ some (g v) ]
  unfolding lookup
  lookup-fill k [] m h = refl
  lookup-fill k ((j, v) ∷ entries) m h =
      lookup-fill k entries (insert j (g v) m) h.1
      ∙ ground (arith, lookup-insert j k (g v) m, str_eq_iff j k)

  pub fill-IsDistinct :
      (entries : Dict A) (m : Dict B)
      → IsDistinct m
      → IsDistinct (foldl (λ d e. insert e.0 (g e.1) d) m entries)
  fill-IsDistinct [] m h = h
  fill-IsDistinct ((j, v) ∷ entries) m h =
      fill-IsDistinct entries (insert j (g v) m) (insert-IsDistinct j (g v) m h)

module _ {F : Type 0} ⦃fl : Float64 F⦄ ⦃js : Json F⦄ where
  abbrev pub as_float : Option (List ℕ) → Option F
  as_float none = none
  as_float (some v) = some (bytes_to_float v)

  as_float-elim :
      (o : Option (List ℕ))
      → elim o [ none ↦ none | some v ↦ some (bytes_to_float {F = F} v) ] ≡ as_float o
  as_float-elim none = refl
  as_float-elim (some v) = refl

module _ {F : Type 0} ⦃fl : Float64 F⦄ ⦃js : Json F⦄ {D : Type 0} ⦃db : Bolt D⦄ where
  -- The map of all balances holds what the bucket does.
  pub lookup-get_all_balances :
      IsBolt D
      → (k : Str) (d : D) → lookup {V = F} k (get_all_balances d) ≡ as_float (db.get d balances k)
  unfolding get_all_balances lookup
  lookup-get_all_balances laws k d =
      lookup-fill bytes_to_float k (db.cursor d balances) []
        (sorted-IsDistinct (db.cursor d balances) (laws.cursor-IsSorted d balances))
      ∙ rw (laws.lookup-cursor d balances k) (as_float-elim (db.get d balances k))

same-elim : (o : Option (List ℕ)) → elim o [ none ↦ none | some v ↦ some v ] ≡ o
same-elim none = refl
same-elim (some v) = refl

module _ {D : Type 0} ⦃db : Bolt D⦄ where
  pub lookup-get_all_stakes_raw :
      IsBolt D → (k : Str) (d : D) → lookup k (get_all_stakes_raw d) ≡ db.get d stakes k
  unfolding get_all_stakes_raw lookup
  lookup-get_all_stakes_raw laws k d =
      lookup-fill (λ v. v) k (db.cursor d stakes) []
        (sorted-IsDistinct (db.cursor d stakes) (laws.cursor-IsSorted d stakes))
      ∙ rw (laws.lookup-cursor d stakes k) (same-elim (db.get d stakes k))

  pub get_all_stakes_raw-IsDistinct : (d : D) → IsDistinct (get_all_stakes_raw d)
  unfolding get_all_stakes_raw
  get_all_stakes_raw-IsDistinct d = fill-IsDistinct (λ v. v) (db.cursor d stakes) [] tt
