-- ===== src/Examples/Targets.antt =====
-- The theorems on targets and difficulty, applied.
use devinsidercoin.Prelude.{ℕ, ◌-◌, ◌*◌, ◌^◌, ◌≤◌, ◌<◌, ◌≡◌, refl, some, List, [], ◌∷◌, inl, arith}
use devinsidercoin.Prelude.Int.{pos}
use devinsidercoin.Block.{Block}
use devinsidercoin.Pow.{
  bits_to_target, target_to_bits, calc_next_bits, progressive_difficulty_floor,
}
use devinsidercoin.Pow.Canonical.{bits_to_target-target_to_bits_near, target_to_bits-bits_to_target}
use devinsidercoin.Pow.Floor.{
  progressive_difficulty_floor_mono, progressive_difficulty_floor_vanishes,
}
use devinsidercoin.Pow.Retarget.{calc_next_bits-le}
use devinsidercoin.Examples.{sample_block, easy_bits}

bits_to_target-target_to_bits_near_example :
    (bits_to_target (target_to_bits 1000000001) ≤ 1000000001)
    × ((1000000001 - bits_to_target (target_to_bits 1000000001)) * 2 ^ 15
        < bits_to_target (target_to_bits 1000000001))
bits_to_target-target_to_bits_near_example =
    bits_to_target-target_to_bits_near 1000000001 1 (omega arith) (omega arith) (omega arith)

target_to_bits-bits_to_target_example : target_to_bits (bits_to_target 486604799) ≡ 486604799
target_to_bits-bits_to_target_example =
    target_to_bits-bits_to_target 486604799
      (omega arith, omega arith, inl (omega arith, omega arith))

progressive_difficulty_floor_mono_example :
    bits_to_target (progressive_difficulty_floor 1500000 500000 486604799)
    ≤ bits_to_target (progressive_difficulty_floor 700000 500000 486604799)
progressive_difficulty_floor_mono_example =
    progressive_difficulty_floor_mono 700000 1500000 500000 486604799 (omega arith) (omega arith)
      (omega arith)

-- The bits of a target of 65535.
progressive_difficulty_floor_vanishes_example :
    bits_to_target (progressive_difficulty_floor 5000000 500000 50397183) ≡ 0
progressive_difficulty_floor_vanishes_example =
    progressive_difficulty_floor_vanishes 5000000 500000 50397183 (omega arith) (omega arith)
      (unfold bits_to_target in omega arith)

abbrev recent : List (Block ℕ)
recent = sample_block 1 ∷ sample_block 2 ∷ []

calc_next_bits-le_example :
    (bits : ℕ) × (calc_next_bits recent 2 (pos 60) easy_bits ≡ some bits)
    × (bits_to_target bits ≤ bits_to_target easy_bits)
    × (bits_to_target bits ≤ bits_to_target (sample_block 2).header.bits * 4)
calc_next_bits-le_example =
    calc_next_bits-le 2 60 easy_bits recent (sample_block 2)
      (record {
        interval_pos = omega arith;
        interval_lt = omega arith;
        expected_pos = omega arith;
        expected_lt = omega arith;
      })
      (omega arith) (omega arith) refl
