-- ===== src/Pow.antt =====
-- internal/blockchain/pow.go: the compact form of targets, the proof of work test, the retargeting
-- and the progressive floor. A big.Int that is never negative is a natural number; a division by
-- zero, which panics, is `none`.
pub mod Compact
pub mod Canonical
pub mod Rounding
pub mod Floor
pub mod Retarget
use devinsidercoin.Prelude.{
  ℕ, zero, suc, ◌+◌, ◌-◌, ◌*◌, ◌/◌, ◌%◌, ◌^◌, Bool, false, not, ◌||◌, Option, none, some, List, [],
  ◌∷◌, length, drop, head?, get_last?, ltb, leb, ◌==◌, if◌then◌else◌, Str,
}
use devinsidercoin.Prelude.Int.{ℤ, pos, negsuc, ◌-ℤ◌, ◌*ℤ◌, ltb_ℤ, int64, pos_part, neg_part}
use devinsidercoin.Bytes.{big_bytes, of_big, decode_string}
use devinsidercoin.Block.{Block}

-- `bits & 0x007FFFFF` is the remainder by 2 ^ 23.
unfoldable pub bits_to_target : ℕ → ℕ
bits_to_target bits =
    let exponent = bits / 2 ^ 24 in
    let mantissa = bits % 2 ^ 23 in
    if leb exponent 3
    then mantissa / 2 ^ (8 * (3 - exponent))
    else mantissa * 2 ^ (8 * (exponent - 3))

-- The first three bytes, or all if there are fewer.
unfoldable pub leading_bytes : List ℕ → ℕ
leading_bytes (a ∷ b ∷ c ∷ bytes) = a * 2 ^ 16 + b * 2 ^ 8 + c
leading_bytes (a ∷ b ∷ []) = a * 2 ^ 8 + b
leading_bytes (a ∷ []) = a
leading_bytes [] = 0

-- `(exponent << 24) | mantissa` on uint32, where the mantissa is below 2 ^ 24. A mantissa whose high
-- bit 0x800000 is set moves down a byte.
unfoldable pub pack_bits : ℕ → ℕ → ℕ
pack_bits exponent mantissa =
    if mantissa / 2 ^ 23 % 2 == 0
    then exponent * 2 ^ 24 % 2 ^ 32 + mantissa
    else (exponent + 1) * 2 ^ 24 % 2 ^ 32 + mantissa / 2 ^ 8

unfoldable pub target_to_bits : ℕ → ℕ
target_to_bits target =
    let bytes = big_bytes target in
    if target == 0 then 0 else pack_bits (length bytes) (leading_bytes bytes)

-- The end of `CheckProofOfWork`, on what `hex.DecodeString` returned.
unfoldable pub check_decoded : ℕ → List ℕ × Bool → Bool
check_decoded bits (bytes, failed) =
    if failed || not (length bytes == 32) then false else leb (of_big bytes) (bits_to_target bits)

unfoldable pub check_proof_of_work : Str → ℕ → Bool
unfolding check_decoded
check_proof_of_work hash_hex bits = check_decoded bits (decode_string hash_hex)

-- The clamps of the measured time to a factor of four of the expected time. `expectedTime/4` on
-- int64 rounds towards zero.
unfoldable pub quarter : ℤ → ℤ
quarter (pos n) = pos (n / 4)
quarter (negsuc n) = pos 0 -ℤ pos (suc n / 4)

unfoldable pub clamp_time : ℤ → ℤ → ℤ
unfolding quarter ◌-ℤ◌ ◌*ℤ◌ int64
clamp_time expected actual =
    let low = if ltb_ℤ actual (quarter expected) then quarter expected else actual in
    let high = int64 (expected *ℤ pos 4) in if ltb_ℤ high low then high else low

-- `big.Int.Div` is Euclidean; it panics at zero.
unfoldable pub big_div : ℤ → ℤ → Option ℤ
unfolding ◌-ℤ◌
big_div x (pos zero) = none
big_div (pos a) (pos (suc b)) = some (pos (a / suc b))
big_div (negsuc a) (pos (suc b)) = some (negsuc (a / suc b))
big_div (pos a) (negsuc b) = some (pos 0 -ℤ pos (a / suc b))
big_div (negsuc a) (negsuc b) = some (pos (suc (a / suc b)))

-- The end of `CalcNextBits`: no target above the maximum, in compact form. `Bytes` is of the
-- magnitude.
unfoldable pub limit_target : ℕ → ℤ → ℕ
limit_target min_bits new_target =
    let max_target = pos (bits_to_target min_bits) in
    let limited = if ltb_ℤ max_target new_target then max_target else new_target in
    target_to_bits (pos_part limited + neg_part limited)

module _ {F : Type 0} where
  -- From the two blocks that span the interval.
  unfoldable pub retarget : Block F → Block F → ℕ → ℤ → ℕ → Option ℕ
  retarget last first interval seconds min_bits =
      let actual = int64 (last.header.timestamp -ℤ first.header.timestamp) in
      let expected = int64 (int64 (pos interval) *ℤ seconds) in
      let current = pos (bits_to_target last.header.bits) in
      elim (big_div (current *ℤ clamp_time expected actual) expected) [
        | none ↦ none
        | some new_target ↦ some (limit_target min_bits new_target)
      ]

  -- `none` is a panic: an interval of zero, or an expected time of zero.
  unfoldable pub calc_next_bits : List (Block F) → ℕ → ℤ → ℕ → Option ℕ
  calc_next_bits blocks interval seconds min_bits = elim (get_last? blocks) [
    | none ↦ some min_bits
    | some last ↦
        if ltb (length blocks) interval
        then some last.header.bits
        else elim (head? (drop (length blocks - interval) blocks)) [
          | none ↦ none
          | some first ↦ retarget last first interval seconds min_bits
        ]
  ]

-- `ProgressiveDifficultyFloor`
unfoldable pub progressive_difficulty_floor : ℕ → ℕ → ℕ → ℕ
progressive_difficulty_floor height epoch_blocks min_bits =
    if epoch_blocks == 0
    then min_bits
    else let epoch = height / epoch_blocks in
      if epoch == 0
      then min_bits
      else let capped = if ltb 60 epoch then 60 else epoch in
        let shifted = bits_to_target min_bits / 2 ^ capped in
        target_to_bits (if shifted == 0 then 1 else shifted)

-- `ApplyProgressiveDifficulty`
unfoldable pub apply_progressive_difficulty : ℕ → ℕ → ℕ → ℕ → ℕ
unfolding progressive_difficulty_floor
apply_progressive_difficulty bits height epoch_blocks min_bits =
    let floor_bits = progressive_difficulty_floor height epoch_blocks min_bits in
    if ltb (bits_to_target floor_bits) (bits_to_target bits) then floor_bits else bits
