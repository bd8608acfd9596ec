-- ===== src/Chain/Template/Rewards.antt =====
-- The block reward and the supply.
use devinsidercoin.Prelude.{
  ℕ, ◌/◌, ◌≤◌, ◌≡◌, ◌⊎◌, refl, false, some, inl, inr, Bool-cases, arith, ◌==◌,
}
use devinsidercoin.Prelude.Float64.{Float64}
use devinsidercoin.Config.{NetworkConfig}
use devinsidercoin.Stakes.{dust}
use devinsidercoin.Chain.Template.{halve, calc_block_reward}

-- If the halving interval is not zero and no number is less than itself, there is a reward, and it is
-- zero, or else the supply is not minted yet and no less than the reward is left of it.
pub calc_block_reward-le :
    {F : Type 0} ⦃fl : Float64 F⦄ (config : NetworkConfig F) (minted : F) (height : ℕ)
    → 1 ≤ config.halving_interval
    → ((x : F) → fl.lt x x ≡ false)
    → (reward : F) × (calc_block_reward config minted height ≡ some reward)
      × ((reward ≡ fl.literal 0 0)
          ⊎ ((fl.le config.max_supply minted ≡ false)
              × (fl.lt (fl.sub config.max_supply minted) reward ≡ false)))
unfolding calc_block_reward
calc_block_reward-le ⦃fl⦄ config minted height h irreflexive =
    let on : config.halving_interval == 0 ≡ false = ground arith in
    let reward = halve (height / config.halving_interval) config.initial_reward in
    let left = fl.sub config.max_supply minted in
    elim (Bool-cases (fl.le config.max_supply minted)) [
      | inl e ↦ (fl.literal 0 0, rw e refl, inl refl)
      | inr e ↦ elim (Bool-cases (fl.lt reward dust)) [
        | inl f ↦ (fl.literal 0 0, rw (e, on, f) refl, inl refl)
        | inr f ↦ elim (Bool-cases (fl.lt left reward)) [
          | inl g ↦ (left, rw (e, on, f, g) refl, inr (e, irreflexive left))
          | inr g ↦ (reward, rw (e, on, f, g) refl, inr (e, g))
        ]
      ]
    ]
