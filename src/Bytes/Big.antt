-- ===== src/Bytes/Big.antt =====
-- `big.Int.Bytes` has no leading zero, and reads back.
use devinsidercoin.Prelude.{
  ℕ, zero, suc, ◌/◌, ◌%◌, ◌≤◌, ◌≡◌, refl, inl, inr, List, [], ◌∷◌, ◌++◌, All, All-append, arith,
  ◌==◌, Bool-cases, ==_iff,
}
use devinsidercoin.Bytes.{of_big, big_bytes, big_bytes_fuel, IsByte}
use devinsidercoin.Bytes.Width.{of_big-append_one}

-- The first byte is there and is not zero.
abbrev pub Leads : List ℕ → Type 0
Leads [] = ⊥
Leads (b ∷ bs) = 1 ≤ b

Leads-append : (xs ys : List ℕ) → Leads xs → Leads (xs ++ ys)
Leads-append [] ys h = absurd h
Leads-append (x ∷ xs) ys h = h

pub record IsBytesOf (n : ℕ) (bs : List ℕ) : Type 0 where
  pub value : of_big bs ≡ n
  pub bytes : All IsByte bs

big_bytes_fuel-IsBytesOf : (f n : ℕ) → n ≤ f → IsBytesOf n (big_bytes_fuel f n)
unfolding big_bytes_fuel
big_bytes_fuel-IsBytesOf zero n h = record { value = unfold of_big in omega arith; bytes = tt }
big_bytes_fuel-IsBytesOf (suc f) n h = elim (Bool-cases (n == 0)) [
  | inl e ↦ rw e (record { value = unfold of_big in ground arith; bytes = tt })
  | inr e ↦
      let ih = big_bytes_fuel-IsBytesOf f (n / 256) (ground arith) in
      rw e (record {
        value = omega (arith, ih.value, of_big-append_one (big_bytes_fuel f (n / 256)) (n % 256));
        bytes = All-append IsByte _ _ ih.bytes (omega arith, tt);
      })
]

pub big_bytes-IsBytesOf : (n : ℕ) → IsBytesOf n (big_bytes n)
unfolding big_bytes
big_bytes-IsBytesOf n = big_bytes_fuel-IsBytesOf n n (omega arith)

big_bytes_fuel-zero : (f : ℕ) → big_bytes_fuel f 0 ≡ []
unfolding big_bytes_fuel
big_bytes_fuel-zero zero = refl
big_bytes_fuel-zero (suc f) = refl

big_bytes_fuel-Leads : (f n : ℕ) → n ≤ f → 1 ≤ n → Leads (big_bytes_fuel f n)
unfolding big_bytes_fuel
big_bytes_fuel-Leads zero n h p = absurd (omega arith)
big_bytes_fuel-Leads (suc f) n h p = elim (Bool-cases (n == 0)) [
  | inl e ↦ absurd (ground arith)
  | inr e ↦ rw e (elim (Bool-cases (n / 256 == 0)) [
    | inl small ↦
        rw ((==_iff _ _).0 small, big_bytes_fuel-zero f) (omega (arith, (==_iff _ _).0 small))
    | inr large ↦ Leads-append _ _ (big_bytes_fuel-Leads f (n / 256) (omega arith) (ground arith))
  ])
]

pub big_bytes-Leads : (n : ℕ) → 1 ≤ n → Leads (big_bytes n)
unfolding big_bytes
big_bytes-Leads n h = big_bytes_fuel-Leads n n (omega arith) h
