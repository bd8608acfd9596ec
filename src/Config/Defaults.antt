-- ===== src/Config/Defaults.antt =====
-- What the defaults guarantee.
use devinsidercoin.Prelude.{ℕ, ◌≤◌, ◌≡◌, refl, inl, inr, arith, Bool-cases, ◌==◌, if◌then◌else◌}
use devinsidercoin.Prelude.Float64.{Float64}
use devinsidercoin.Config.{NetworkConfig, with_defaults}

-- After the defaults no limit of size, transactions or epoch is zero, and a second application
-- changes nothing.
pub with_defaults-IsComplete :
    {F : Type 0} ⦃fl : Float64 F⦄ (cfg : NetworkConfig F)
    → (1 ≤ (with_defaults cfg).max_block_size)
      × (1 ≤ (with_defaults cfg).max_block_transactions)
      × (1 ≤ (with_defaults cfg).difficulty_epoch_blocks)
      × (with_defaults (with_defaults cfg) ≡ with_defaults cfg)
unfolding with_defaults
with_defaults-IsComplete ⦃fl⦄ cfg =
    let size = filled cfg.max_block_size 8388608 (omega arith) in
    let count = filled cfg.max_block_transactions 10000 (omega arith) in
    let epoch = filled cfg.difficulty_epoch_blocks 500000 (omega arith) in
    let threshold = twice cfg.pos_min_threshold in
    (size.0, count.0, epoch.0, rw (size.1, count.1, epoch.1, threshold) refl)
  where
    filled :
        (n d : ℕ)
        → 1 ≤ d
        → (1 ≤ (if n == 0 then d else n))
          × ((if (if n == 0 then d else n) == 0 then d else if n == 0 then d else n)
              ≡ (if n == 0 then d else n))
    filled n d h = (ground arith, ground arith)

    twice :
        (x : _)
        → (if fl.eq (if fl.eq x (fl.literal 0 0) then fl.literal 100 0 else x) (fl.literal 0 0)
            then fl.literal 100 0
            else if fl.eq x (fl.literal 0 0)
            then fl.literal 100 0
            else x)
          ≡ (if fl.eq x (fl.literal 0 0) then fl.literal 100 0 else x)
    twice x = elim (Bool-cases (fl.eq x (fl.literal 0 0))) [
      | inr e ↦ rw e (rw e refl)
      | inl e ↦ rw e (elim (Bool-cases (fl.eq (fl.literal 100 0) (fl.literal 0 0))) [
        | inl f ↦ rw f refl
        | inr f ↦ rw f refl
      ])
    ]
