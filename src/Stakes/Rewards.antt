-- ===== src/Stakes/Rewards.antt =====
-- How `CalcPOSRewards` distributes a reward.
use devinsidercoin.Prelude.{
  ◌≡◌, refl, false, Option, none, some, if◌then◌else◌, Str, str_eq, str_eq_iff, arith, List, [],
  ◌∷◌,
}
use devinsidercoin.Prelude.Dict.{lookup, IsDistinct}
use devinsidercoin.Prelude.Float64.{Float64}
use devinsidercoin.Block.{TxOutput}
use devinsidercoin.Stakes.{
  Stake, Stakes, dust, eligible_staked, share_of, reward_outputs, calc_pos_rewards,
}

module _ {F : Type 0} ⦃fl : Float64 F⦄ where
  -- The outputs that pay an address.
  abbrev pub payments : Str → List (TxOutput F) → List F
  payments address [] = []
  payments address (out ∷ outputs) =
      if str_eq out.address address
      then out.amount ∷ payments address outputs
      else payments address outputs

  -- What an address is due: nothing without a stake of at least the threshold, nor if its share is no
  -- more than the smallest amount.
  abbrev pub due : F → F → F → Option (Stake F) → List F
  due total_reward min_threshold eligible none = []
  due total_reward min_threshold eligible (some s) =
      if fl.lt s.amount min_threshold
      then []
      else if fl.lt dust (share_of total_reward eligible s.amount)
      then share_of total_reward eligible s.amount ∷ []
      else []

  reward_outputs_absent :
      (total_reward min_threshold eligible : F) (stakes : Stakes F) (address : Str)
      → lookup address stakes ≡ none
      → payments address (reward_outputs total_reward min_threshold eligible stakes) ≡ []
  unfolding reward_outputs lookup
  reward_outputs_absent total_reward min_threshold eligible [] address e = refl
  reward_outputs_absent total_reward min_threshold eligible ((k, s) ∷ stakes) address e =
      ground (arith, reward_outputs_absent total_reward min_threshold eligible stakes address)

  payments-reward_outputs :
      (total_reward min_threshold eligible : F) (stakes : Stakes F) (address : Str)
      → IsDistinct stakes
      → payments address (reward_outputs total_reward min_threshold eligible stakes)
        ≡ due total_reward min_threshold eligible (lookup address stakes)
  unfolding reward_outputs lookup
  payments-reward_outputs total_reward min_threshold eligible [] address d = refl
  payments-reward_outputs total_reward min_threshold eligible ((k, s) ∷ stakes) address d = ground (
    arith,
    str_eq_iff k address,
    reward_outputs_absent total_reward min_threshold eligible stakes address,
    payments-reward_outputs total_reward min_threshold eligible stakes address d.1,
  )

  pub payments-calc_pos_rewards :
      (total_reward min_threshold : F) (stakes : Stakes F) (address : Str)
      → IsDistinct stakes
      → fl.eq (eligible_staked min_threshold stakes) (fl.literal 0 0) ≡ false
      → payments address (calc_pos_rewards total_reward min_threshold stakes)
        ≡ due total_reward min_threshold
            (eligible_staked min_threshold stakes)
            (lookup address stakes)
  unfolding calc_pos_rewards
  payments-calc_pos_rewards total_reward min_threshold stakes address d nonzero =
      rw (nonzero, calc_pos_rewards)
        (payments-reward_outputs total_reward min_threshold (eligible_staked min_threshold stakes)
          stakes address d)
