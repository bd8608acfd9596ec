-- ===== src/Pow/Retarget.antt =====
-- `CalcNextBits`: no panic, and how far the target moves.
use native.Mathlib.Nat.{mul-le-mul, le_refl, div-le_of_le-mul}
use Prim.Native.Nat.{min, max}
use devinsidercoin.Prelude.{
  ℕ, zero, suc, ◌+◌, ◌-◌, ◌*◌, ◌/◌, ◌^◌, ◌≤◌, ◌<◌, ◌≡◌, refl, inl, inr, arith, false, true, ltb,
  Bool-cases, some, List, [], ◌∷◌, length, drop, get_last?, head?,
}
use devinsidercoin.Prelude.Int.{ℤ, pos, negsuc, ◌-ℤ◌, ◌*ℤ◌, int64, int64-pos}
use devinsidercoin.Block.{Block}
use devinsidercoin.Pow.{bits_to_target, clamp_time, big_div, limit_target, retarget, calc_next_bits}
use devinsidercoin.Pow.Rounding.{bits_to_target-lt, bits_to_target-target_to_bits_le}

*ℤ-pos : (a b : ℕ) → pos a *ℤ pos b ≡ pos (a * b)
unfolding ◌*ℤ◌
*ℤ-pos a b = ground arith

-- The clamp, on natural numbers.
clamped : ℕ → ℤ → ℕ
clamped e (pos n) = min (e * 4) (max (e / 4) n)
clamped e (negsuc n) = e / 4

clamp_time-pos :
    (e : ℕ) (actual : ℤ) → e < 2 ^ 60 → clamp_time (pos e) actual ≡ pos (clamped e actual)
unfolding clamp_time clamped
clamp_time-pos e (pos n) h = rw (*ℤ-pos e 4, int64-pos (e * 4) (omega arith)) (ground arith)
clamp_time-pos e (negsuc n) h = rw (*ℤ-pos e 4, int64-pos (e * 4) (omega arith)) (ground arith)

-- The clamped time is within a factor of four of the expected one, whatever was measured.
clamped_bounds : (e : ℕ) (actual : ℤ) → (e / 4 ≤ clamped e actual) × (clamped e actual ≤ e * 4)
unfolding clamped
clamped_bounds e (pos n) = omega arith
clamped_bounds e (negsuc n) = omega arith

big_div-pos : (a b : ℕ) → 1 ≤ b → big_div (pos a) (pos b) ≡ some (pos (a / b))
unfolding big_div
big_div-pos a zero h = absurd (omega arith)
big_div-pos a (suc b) h = refl

limit_target-le :
    (min_bits t : ℕ)
    → min_bits < 2 ^ 32
    → (bits_to_target (limit_target min_bits (pos t)) ≤ bits_to_target min_bits)
      × (bits_to_target (limit_target min_bits (pos t)) ≤ t)
unfolding limit_target
limit_target-le min_bits t range =
    let top = bits_to_target min_bits in
    elim (Bool-cases (ltb top t)) [
      | inl e ↦
          let capped : ltb (top + 0) (t + 0) ≡ true = ground arith in
          let plain : top + 0 ≡ top = omega arith in
          rw capped (
            rw plain (
              omega
                  (arith, bits_to_target-target_to_bits_le top (bits_to_target-lt min_bits range)),
              ground
                  (arith, bits_to_target-target_to_bits_le top (bits_to_target-lt min_bits range)),
            ))
      | inr e ↦
          let kept : ltb (top + 0) (t + 0) ≡ false = ground arith in
          let plain : t + 0 ≡ t = omega arith in
          let low : t ≤ top = ground arith in
          rw kept (
            rw plain (
              omega (
                arith,
                bits_to_target-target_to_bits_le t
                    (omega (arith, bits_to_target-lt min_bits range)),
              ),
              bits_to_target-target_to_bits_le t (omega (arith, bits_to_target-lt min_bits range)),
            ))
    ]

head-drop {ℓ} :
    {A : Type ℓ} (n : ℕ) (xs : List A) → n < length xs → (x : A) × (head? (drop n xs) ≡ some x)
head-drop n [] h = absurd (omega arith)
head-drop zero (x ∷ xs) h = (x, refl)
head-drop (suc n) (x ∷ xs) h = head-drop n xs (omega arith)

scaled-le : (c a e : ℕ) → a ≤ e * 4 → c * a / e ≤ c * 4
scaled-le c a e h = div-le_of_le-mul e (omega (arith, mul-le-mul (le_refl c) h))

module _ (interval seconds : ℕ) where
  abbrev expected_time : ℕ
  expected_time = interval * seconds

  -- The interval and its length in seconds are positive and far from the range of int64.
  pub record IsSpan : Type 0 where
    pub interval_pos : 1 ≤ interval
    pub interval_lt : interval < 2 ^ 63
    pub expected_pos : 1 ≤ interval * seconds
    pub expected_lt : interval * seconds < 2 ^ 60

  expected-int64 : IsSpan → int64 (int64 (pos interval) *ℤ pos seconds) ≡ pos expected_time
  expected-int64 span =
      rw (int64-pos interval span.interval_lt, *ℤ-pos interval seconds)
        (int64-pos expected_time (omega (arith, span.expected_lt)))

module _ {F : Type 0} (interval seconds min_bits : ℕ) where
  -- What `retarget` computes, on natural numbers.
  retarget_lem :
      (last first : Block F)
      → IsSpan interval seconds
      → let actual = int64 (last.header.timestamp -ℤ first.header.timestamp) in
        retarget last first interval (pos seconds) min_bits
        ≡ some (
            limit_target min_bits (
              pos (
                bits_to_target last.header.bits
                * clamped (expected_time interval seconds) actual
                / (expected_time interval seconds))))
  unfolding retarget
  retarget_lem last first span =
      let actual = int64 (last.header.timestamp -ℤ first.header.timestamp) in
      rw (
        expected-int64 interval seconds span,
        clamp_time-pos (expected_time interval seconds) actual span.expected_lt,
        *ℤ-pos (bits_to_target last.header.bits) (clamped (expected_time interval seconds) actual),
        big_div-pos
            (bits_to_target last.header.bits * clamped (expected_time interval seconds) actual)
            (expected_time interval seconds) span.expected_pos,
        retarget,
      )

  pub calc_next_bits-le :
      (blocks : List (Block F)) (last : Block F)
      → IsSpan interval seconds
      → min_bits < 2 ^ 32
      → interval ≤ length blocks
      → get_last? blocks ≡ some last
      → (bits : ℕ) × (calc_next_bits blocks interval (pos seconds) min_bits ≡ some bits)
        × (bits_to_target bits ≤ bits_to_target min_bits)
        × (bits_to_target bits ≤ bits_to_target last.header.bits * 4)
  unfolding calc_next_bits
  calc_next_bits-le blocks last span range enough is_last =
      let (first, found) =
        head-drop (length blocks - interval) blocks (omega (arith, span.interval_pos)) in
      let actual = int64 (last.header.timestamp -ℤ first.header.timestamp) in
      let t =
        bits_to_target last.header.bits
        * clamped (expected_time interval seconds) actual
        / (expected_time interval seconds) in
      let full : ltb (length blocks) interval ≡ false = ground arith in
      let bounds = limit_target-le min_bits t range in
      (
        limit_target min_bits (pos t),
        rw (is_last, full, found, calc_next_bits) (retarget_lem last first span),
        bounds.0,
        omega (
          arith,
          bounds.1,
          scaled-le (bits_to_target last.header.bits)
              (clamped (expected_time interval seconds) actual) (expected_time interval seconds)
              (clamped_bounds (expected_time interval seconds) actual).1,
        ),
      )
