-- ===== src/Stakes.antt =====
-- internal/blockchain/pos.go: the stakes of all addresses. The manager's lock makes each method one
-- step, so a method is a function of the map. The records in the map are only changed through it.
pub mod Account
pub mod Rewards
use devinsidercoin.Prelude.{
  ℕ, Bool, true, false, not, Option, none, some, List, [], ◌∷◌, foldl, if◌then◌else◌, Str,
}
use devinsidercoin.Prelude.Dict.{Dict, lookup, insert, erase}
use devinsidercoin.Prelude.Float64.{Float64}
use devinsidercoin.Block.{TxOutput}

pub record Stake (F : Type 0) : Type 0 where
  pub address : Str
  pub amount : F
  pub block_height : ℕ

-- `map[string]*Stake`
abbrev pub Stakes : Type 0 → Type 0
Stakes F = Dict (Stake F)

pub data RemoveError : Type 0 where
  no_stake insufficient_stake : RemoveError

module _ {F : Type 0} ⦃fl : Float64 F⦄ where
  -- The smallest amount, 0.00000001.
  abbrev pub dust : F
  dust = fl.literal 1 8

  unfoldable pub add_stake : Str → F → ℕ → Stakes F → Stakes F
  add_stake address amount height stakes = elim (lookup address stakes) [
    | some s ↦ insert address (record s { amount = fl.add s.amount amount }) stakes
    | none ↦
        insert address (record { address = address; amount = amount; block_height = height }) stakes
  ]

  -- The error, if any, and the map after the call.
  unfoldable pub remove_stake : Str → F → Stakes F → Option RemoveError × Stakes F
  remove_stake address amount stakes = elim (lookup address stakes) [
    | none ↦ (some no_stake, stakes)
    | some s ↦
        if fl.lt s.amount amount
        then (some insufficient_stake, stakes)
        else let left = fl.sub s.amount amount in
          if fl.lt left dust
          then (none, erase address stakes)
          else (none, insert address (record s { amount = left }) stakes)
  ]

  unfoldable pub get_total_staked : Stakes F → F
  get_total_staked = foldl (λ total e. fl.add total e.1.amount) (fl.literal 0 0)

  unfoldable pub get_stake : Str → Stakes F → F
  get_stake address stakes = elim (lookup address stakes) [
    | some s ↦ s.amount
    | none ↦ fl.literal 0 0
  ]

  -- `s.Amount >= minThreshold`
  abbrev pub is_eligible : F → Str × Stake F → Bool
  is_eligible min_threshold e = fl.le min_threshold e.1.amount

  abbrev add_eligible : F → F → Str × Stake F → F
  add_eligible min_threshold total e =
      if is_eligible min_threshold e then fl.add total e.1.amount else total

  unfoldable pub eligible_staked : F → Stakes F → F
  eligible_staked min_threshold = foldl (add_eligible min_threshold) (fl.literal 0 0)

  abbrev pub share_of : F → F → F → F
  share_of total_reward eligible amount = fl.mul total_reward (fl.div amount eligible)

  -- The second loop of `CalcPOSRewards`.
  unfoldable pub reward_outputs : F → F → F → Stakes F → List (TxOutput F)
  reward_outputs total_reward min_threshold eligible [] = []
  reward_outputs total_reward min_threshold eligible ((addr, s) ∷ stakes) =
      let rest = reward_outputs total_reward min_threshold eligible stakes in
      let reward = share_of total_reward eligible s.amount in
      if fl.lt s.amount min_threshold
      then rest
      else if fl.lt dust reward
      then record { address = addr; amount = reward } ∷ rest
      else rest

  unfoldable pub calc_pos_rewards : F → F → Stakes F → List (TxOutput F)
  unfolding reward_outputs
  calc_pos_rewards total_reward min_threshold stakes =
      let eligible = eligible_staked min_threshold stakes in
      if fl.eq eligible (fl.literal 0 0)
      then []
      else reward_outputs total_reward min_threshold eligible stakes
