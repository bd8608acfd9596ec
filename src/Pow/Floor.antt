-- ===== src/Pow/Floor.antt =====
-- The progressive floor, and the clamp by it.
use Prim.Native.Nat.{min}
use native.Mathlib.Nat.{
  mul-le-mul, le_refl, pow-le-pow_right, one-le-pow, le-div_iff_mul-le, div-mul-le_self,
}
use devinsidercoin.Prelude.{
  ℕ, ◌*◌, ◌/◌, ◌^◌, ◌≤◌, ◌<◌, ◌≡◌, inl, inr, arith, false, ltb, ◌==◌, if◌then◌else◌, Bool-cases,
}
use devinsidercoin.Pow.{
  bits_to_target, target_to_bits, progressive_difficulty_floor, apply_progressive_difficulty,
}
use devinsidercoin.Pow.Canonical.{bits_to_target-target_to_bits_small}
use devinsidercoin.Pow.Rounding.{
  bits_to_target-lt, bits_to_target-target_to_bits_le, bits_to_target-target_to_bits_mono,
}

-- The epoch of a height, after the cap.
abbrev pub epoch_of : ℕ → ℕ → ℕ
epoch_of height epoch_blocks = min (height / epoch_blocks) 60

abbrev at_least_one : ℕ → ℕ
at_least_one t = if t == 0 then 1 else t

floor_first :
    (height epoch_blocks min_bits : ℕ)
    → height / epoch_blocks ≡ 0
    → progressive_difficulty_floor height epoch_blocks min_bits ≡ min_bits
unfolding progressive_difficulty_floor
floor_first height epoch_blocks min_bits e = ground arith

floor_later :
    (height epoch_blocks min_bits : ℕ)
    → 1 ≤ epoch_blocks
    → 1 ≤ height / epoch_blocks
    → progressive_difficulty_floor height epoch_blocks min_bits
      ≡ target_to_bits (at_least_one (bits_to_target min_bits / 2 ^ epoch_of height epoch_blocks))
unfolding progressive_difficulty_floor
floor_later height epoch_blocks min_bits on later =
    let epoch = height / epoch_blocks in
    let enabled : (epoch_blocks == 0) ≡ false = ground arith in
    let started : (epoch == 0) ≡ false = ground arith in
    let cap : (if ltb 60 epoch then 60 else epoch) ≡ min epoch 60 = ground arith in
    rw (enabled, started, cap)

at_least_one-le :
    (t : ℕ) → t < 2 ^ 23 * 256 ^ 252 → bits_to_target (target_to_bits (at_least_one t)) ≤ t
at_least_one-le t h = elim (Bool-cases (t == 0)) [
  | inl e ↦ rw (e, bits_to_target-target_to_bits_small 1 (omega arith)) (omega arith)
  | inr e ↦ rw e (bits_to_target-target_to_bits_le t h)
]

at_least_one_mono :
    (t u : ℕ)
    → t ≤ u
    → u < 2 ^ 23 * 256 ^ 252
    → bits_to_target (target_to_bits (at_least_one t))
      ≤ bits_to_target (target_to_bits (at_least_one u))
at_least_one_mono t u le h = elim (Bool-cases (t == 0)) [
  | inl e ↦ rw (e, bits_to_target-target_to_bits_small 1 (omega arith)) (omega arith)
  | inr e ↦
      let nonzero : (u == 0) ≡ false = ground arith in
      rw (e, nonzero) (bits_to_target-target_to_bits_mono t u le h)
]

div-le : (t n : ℕ) → t / n ≤ t
div-le t n = omega arith

-- With epochs of at least one block and minimal bits of 32 bits, the floor's target is at most the
-- maximal target halved once for each epoch, of which 60 count.
pub progressive_difficulty_floor-le :
    (height epoch_blocks min_bits : ℕ)
    → 1 ≤ epoch_blocks
    → min_bits < 2 ^ 32
    → bits_to_target (progressive_difficulty_floor height epoch_blocks min_bits)
      ≤ bits_to_target min_bits / 2 ^ epoch_of height epoch_blocks
progressive_difficulty_floor-le height epoch_blocks min_bits on range =
    elim (Bool-cases (height / epoch_blocks == 0)) [
      | inl e ↦
          let first : height / epoch_blocks ≡ 0 = ground arith in
          rw (floor_first height epoch_blocks min_bits first, first) (omega arith)
      | inr e ↦
          let t = bits_to_target min_bits in
          let k = epoch_of height epoch_blocks in
          rw (floor_later height epoch_blocks min_bits on (ground arith)) (
            at_least_one-le (t / 2 ^ k)
              (omega (arith, div-le t (2 ^ k), bits_to_target-lt min_bits range)))
    ]

div_pow_mono : (t j k : ℕ) → j ≤ k → t / 2 ^ k ≤ t / 2 ^ j
div_pow_mono t j k h = (le-div_iff_mul-le (one-le-pow j 2 (omega arith))).1 (
    omega (
      arith,
      mul-le-mul (le_refl (t / 2 ^ k)) (pow-le-pow_right {n = 2} (omega arith) h),
      div-mul-le_self t (2 ^ k),
    ))

div_mono : (low high n : ℕ) → 1 ≤ n → low ≤ high → low / n ≤ high / n
div_mono low high n on le = (le-div_iff_mul-le on).1 (omega (arith, div-mul-le_self low n))

-- With epochs of at least one block and minimal bits of 32 bits, the floor never gets easier with
-- the height.
pub progressive_difficulty_floor_mono :
    (low high epoch_blocks min_bits : ℕ)
    → 1 ≤ epoch_blocks
    → low ≤ high
    → min_bits < 2 ^ 32
    → bits_to_target (progressive_difficulty_floor high epoch_blocks min_bits)
      ≤ bits_to_target (progressive_difficulty_floor low epoch_blocks min_bits)
progressive_difficulty_floor_mono low high epoch_blocks min_bits on le range =
    let t = bits_to_target min_bits in
    let epochs : low / epoch_blocks ≤ high / epoch_blocks = div_mono low high epoch_blocks on le in
    elim (Bool-cases (low / epoch_blocks == 0)) [
      | inl e ↦ rw (floor_first low epoch_blocks min_bits (ground arith)) (
          omega (
            arith,
            progressive_difficulty_floor-le high epoch_blocks min_bits on range,
            div-le t (2 ^ epoch_of high epoch_blocks),
          ))
      | inr e ↦
          rw
            (
              floor_later low epoch_blocks min_bits on (ground arith),
              floor_later high epoch_blocks min_bits on (ground arith),
            )
            (at_least_one_mono _ _
              (div_pow_mono t (epoch_of low epoch_blocks) (epoch_of high epoch_blocks)
                (omega arith))
              (omega (
                arith,
                div-le t (2 ^ epoch_of low epoch_blocks),
                bits_to_target-lt min_bits range,
              )))
    ]

-- With epochs of at least one block and from the first epoch on, a maximal target that the
-- halvings bring below 256 gives a floor whose target is zero.
pub progressive_difficulty_floor_vanishes :
    (height epoch_blocks min_bits : ℕ)
    → 1 ≤ epoch_blocks
    → epoch_blocks ≤ height
    → bits_to_target min_bits / 2 ^ epoch_of height epoch_blocks < 256
    → bits_to_target (progressive_difficulty_floor height epoch_blocks min_bits) ≡ 0
progressive_difficulty_floor_vanishes height epoch_blocks min_bits on later small =
    let t = bits_to_target min_bits / 2 ^ epoch_of height epoch_blocks in
    rw
      (
        floor_later height epoch_blocks min_bits on ((le-div_iff_mul-le on).1 (omega arith)),
        bits_to_target-target_to_bits_small (at_least_one t) (ground arith),
      )
      (ground arith)

-- `ApplyProgressiveDifficulty` returns bits whose target is the smaller of the two targets, that of
-- the given bits and that of the floor.
pub apply_progressive_difficulty-eq-min :
    (bits height epoch_blocks min_bits : ℕ)
    → bits_to_target (apply_progressive_difficulty bits height epoch_blocks min_bits)
      ≡ min
          (bits_to_target bits)
          (bits_to_target (progressive_difficulty_floor height epoch_blocks min_bits))
unfolding apply_progressive_difficulty
apply_progressive_difficulty-eq-min bits height epoch_blocks min_bits =
    let floor_bits = progressive_difficulty_floor height epoch_blocks min_bits in
    elim (Bool-cases (ltb (bits_to_target floor_bits) (bits_to_target bits))) [
      | inl e ↦ rw e (ground arith)
      | inr e ↦ rw e (ground arith)
    ]
