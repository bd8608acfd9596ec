-- ===== src/Pow/Rounding.antt =====
-- The order of targets under the rounding to the compact form.
use native.Mathlib.Nat.{mul-le-mul, le_refl}
use devinsidercoin.Prelude.{
  ℕ, suc, ◌+◌, ◌-◌, ◌*◌, ◌/◌, ◌%◌, ◌^◌, ◌≤◌, ◌<◌, ◌≡◌, ap, ◌∙◌, inl, inr, arith, ltb, leb, ◌==◌,
  Bool-cases,
}
use devinsidercoin.Prelude.Powers.{pow2-bytes, pow256-suc, pow256_pos, pow256_mono}
use devinsidercoin.Pow.{bits_to_target, target_to_bits}
use devinsidercoin.Pow.Compact.{IsRounded, bits_to_target-target_to_bits}
use devinsidercoin.Pow.Canonical.{bits_to_target-target_to_bits_small}

-- Every target of a uint32 fits 255 bytes with the top bit clear.
pub bits_to_target-lt : (bits : ℕ) → bits < 2 ^ 32 → bits_to_target bits < 2 ^ 23 * 256 ^ 252
unfolding bits_to_target
bits_to_target-lt bits h =
    let e = bits / 2 ^ 24 in
    let m = bits % 2 ^ 23 in
    elim (Bool-cases (leb e 3)) [
      | inl small ↦ rw small (below m (2 ^ (8 * (3 - e))) (omega arith))
      | inr large ↦
          rw (large, pow2-bytes (e - 3))
            (omega (
              arith,
              mul-le-mul (mantissa_lt m) (le_refl (256 ^ (e - 3))),
              pow256_mono (e - 3) 252 (omega arith),
              pow256_pos (e - 3),
            ))
    ]
  where
    mantissa_lt : (m : ℕ) → suc (bits % 2 ^ 23) ≤ 2 ^ 23
    mantissa_lt m = omega arith

    below : (m p : ℕ) → m < 2 ^ 23 → m / p < 2 ^ 23 * 256 ^ 252
    below m p h = omega arith

-- The compact form never stands for more than the target.
pub bits_to_target-target_to_bits_le :
    (t : ℕ) → t < 2 ^ 23 * 256 ^ 252 → bits_to_target (target_to_bits t) ≤ t
bits_to_target-target_to_bits_le t h = elim (Bool-cases (ltb t (2 ^ 16))) [
  | inl small ↦ rw (bits_to_target-target_to_bits_small t (ground arith)) (ground arith)
  | inr large ↦ (bits_to_target-target_to_bits t 252 (ground arith) h (omega arith)).below
]

-- The order of two rounded numbers, by their shifts.
wider_shift :
    (a i b j : ℕ) → suc i ≤ j → a < 2 ^ 23 → 2 ^ 15 ≤ b → a * 256 ^ i + 256 ^ i ≤ b * 256 ^ j
wider_shift a i b j lt a_lt b_ge = omega (
  arith,
  pow256_mono (suc i) j lt,
  pow256-suc i,
  mul-le-mul a_lt (le_refl (256 ^ i)),
  mul-le-mul b_ge (le_refl (256 ^ j)),
)

same_width : (a b p : ℕ) → a * p < b * p + p → a * p ≤ b * p
same_width a b p h = elim (Bool-cases (leb a b)) [
  | inl le ↦ let le' : a ≤ b = ground arith in mul-le-mul le' (le_refl p)
  | inr gt ↦
      let gt' : suc b ≤ a = ground arith in absurd (omega (arith, mul-le-mul gt' (le_refl p)))
]

rounded_mono : (t u r s : ℕ) → t ≤ u → IsRounded t r → IsRounded u s → r ≤ s
rounded_mono t u r s le p q = elim (Bool-cases (p.shift == q.shift)) [
  | inl same ↦
      let same' : p.shift ≡ q.shift = ground arith in
      let value' : r ≡ p.mantissa * 256 ^ q.shift =
        p.value ∙ ap (λ (n : ℕ). p.mantissa * 256 ^ n) same' in
      omega (arith, value', q.value, same_width p.mantissa q.mantissa (256 ^ q.shift) (omega arith))
  | inr differ ↦ elim (Bool-cases (ltb p.shift q.shift)) [
    | inl lt ↦
        let step =
          wider_shift p.mantissa p.shift q.mantissa q.shift (ground arith) p.mantissa_lt
            q.mantissa_ge in
        omega arith
    | inr ge ↦
        let step =
          wider_shift q.mantissa q.shift p.mantissa p.shift (ground arith) q.mantissa_lt
            p.mantissa_ge in
        omega arith
  ]
]

rounded-ge : (t r : ℕ) → 2 ^ 16 ≤ t → IsRounded t r → 256 ≤ r
rounded-ge t r h p =
    omega (arith, pow256_pos p.shift, mul-le-mul p.mantissa_ge (pow256_pos p.shift))

-- Rounding to the compact form keeps the order of targets below 2 ^ 23 * 256 ^ 252, which all
-- targets from 32 bits are.
pub bits_to_target-target_to_bits_mono :
    (t u : ℕ)
    → t ≤ u
    → u < 2 ^ 23 * 256 ^ 252
    → bits_to_target (target_to_bits t) ≤ bits_to_target (target_to_bits u)
bits_to_target-target_to_bits_mono t u le h = elim (Bool-cases (ltb u (2 ^ 16))) [
  | inl small ↦
      rw
        (
          bits_to_target-target_to_bits_small t (ground arith),
          bits_to_target-target_to_bits_small u (ground arith),
        )
        (ground arith)
  | inr large ↦
      let up = bits_to_target-target_to_bits u 252 (ground arith) h (omega arith) in
      elim (Bool-cases (ltb t (2 ^ 16))) [
        | inl low ↦
            let top = rounded-ge u _ (ground arith) up in
            rw (bits_to_target-target_to_bits_small t (ground arith)) (ground arith)
        | inr high ↦
            rounded_mono t u _ _ le
              (bits_to_target-target_to_bits t 252 (ground arith) (omega arith) (omega arith)) up
      ]
]
