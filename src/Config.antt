-- ===== src/Config.antt =====
-- internal/config/config.go: the network parameters and `LoadConfig`. Reading the file and its JSON are
-- parameters.
pub mod Defaults
use devinsidercoin.Prelude.{ℕ, ◌*◌, Bool, ◌==◌, if◌then◌else◌, Str, List, Option, none, some}
use devinsidercoin.Prelude.Float64.{Float64}
use devinsidercoin.Prelude.Int.{ℤ}

pub record NetworkConfig (F : Type 0) : Type 0 where
  pub name : Str
  pub ticker : Str
  pub network_id : ℕ
  pub algorithm : Str
  pub consensus_type : Str
  pub block_time_seconds : ℤ
  pub initial_reward : F
  pub pow_reward_share : F
  pub pos_reward_share : F
  pub halving_interval : ℕ
  pub max_supply : F
  pub difficulty_adjust_interval : ℕ
  pub min_difficulty_bits : ℕ
  pub genesis_timestamp : Str
  pub genesis_message : Str
  pub p2p_port : ℤ
  pub rpc_port : ℤ
  pub address_prefix : Str
  pub protocol_version : ℕ
  pub min_stake_amount : F
  pub stake_lock_blocks : ℕ
  pub max_block_size : ℕ
  pub max_block_transactions : ℕ
  pub pos_min_threshold : F
  pub difficulty_epoch_blocks : ℕ

module _ {F : Type 0} ⦃fl : Float64 F⦄ where
  -- The end of `LoadConfig`: a missing limit, read as zero, gets its default.
  unfoldable pub with_defaults : NetworkConfig F → NetworkConfig F
  with_defaults cfg = record cfg {
    max_block_size = if cfg.max_block_size == 0 then 8 * 1024 * 1024 else cfg.max_block_size;
    max_block_transactions =
        if cfg.max_block_transactions == 0 then 10000 else cfg.max_block_transactions;
    pos_min_threshold =
        if fl.eq cfg.pos_min_threshold (fl.literal 0 0)
        then fl.literal 100 0
        else cfg.pos_min_threshold;
    difficulty_epoch_blocks =
        if cfg.difficulty_epoch_blocks == 0 then 500000 else cfg.difficulty_epoch_blocks;
  }

  -- `LoadConfig`, of the content of the file and its JSON; `none` is an error.
  unfoldable pub load_config :
      (List ℕ → Option (NetworkConfig F)) → Option (List ℕ) → Option (NetworkConfig F)
  unfolding with_defaults
  load_config unmarshal none = none
  load_config unmarshal (some content) = elim (unmarshal content) [
    | none ↦ none
    | some cfg ↦ some (with_defaults cfg)
  ]
