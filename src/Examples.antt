-- ===== src/Examples.antt =====
-- Concrete parameters, and the theorems applied to concrete input: money in units of 0.00000001, a
-- checksum of 32 bytes for SHA-256, an encoding of the blocks of one chain, and a database as a list.
pub mod Store
pub mod Chains
pub mod Starts
mod Restarts
pub mod Network
pub mod Lines
pub mod Contact
pub mod Requests
mod Submission
mod Running
pub mod Wallets
pub mod Templates
mod Targets
mod Mining
mod Money
use devinsidercoin.Prelude.{
  ℕ, ◌+◌, ◌-◌, ◌*◌, ◌/◌, ◌%◌, ◌^◌, ◌<◌, ◌≡◌, Option, none, some, List, [], ◌∷◌, ◌++◌, replicate,
  length, arith, ltb, leb, ◌==◌, if◌then◌else◌, Str, codes, All, All-replicate, length-replicate,
}
use devinsidercoin.Prelude.Int.{pos}
use devinsidercoin.Prelude.Float64.{Float64}
use devinsidercoin.Bytes.{put_big, of_big, encode_to_string, IsByte}
use devinsidercoin.Block.{
  Block, BlockHeader, Transaction, TxCore, TxOutput, TxType, coinbase, transfer, zero_hash,
  compute_hash,
}
use devinsidercoin.Storage.Encoding.{Json}
use devinsidercoin.Stakes.{Stake}
use devinsidercoin.Config.{NetworkConfig}

-- Amounts that are not negative, in units of 0.00000001.
instance unfoldable pub fixed : Float64 ℕ
fixed = record {
  literal = λ m d. m * 10 ^ 8 / 10 ^ d;
  add = ◌+◌;
  sub = ◌-◌;
  mul = λ a b. a * b / 10 ^ 8;
  div = λ a b. a * 10 ^ 8 / b;
  lt = ltb;
  le = leb;
  eq = ◌==◌;
}

abbrev pub coins : ℕ → ℕ
coins n = n * 100000000

-- Stands for SHA-256: 32 times the length.
unfoldable pub checksum : List ℕ → List ℕ
checksum bytes = replicate 32 (length bytes % 256)

pub checksum-IsByte :
    (bytes : List ℕ) → (length (checksum bytes) ≡ 32) × All IsByte (checksum bytes)
unfolding checksum
checksum-IsByte bytes = (
  length-replicate 32 (length bytes % 256),
  All-replicate IsByte 32 (length bytes % 256) (omega arith),
)

-- The hash of every header under `checksum`.
abbrev pub any_hash : Str
any_hash = encode_to_string (replicate 32 32)

abbrev pub easy_bits : ℕ
easy_bits = 545259519

abbrev pub payment : Str → Transaction ℕ
payment id = record {
  tx_id = id;
  type = coinbase;
  from = [];
  to = codes "miner";
  amount = coins 50;
  fee = 0;
  timestamp = pos 1700000000;
  signature = [];
  outputs = record { address = codes "miner"; amount = coins 50 } ∷ [];
}

abbrev pub sending : Transaction ℕ
sending = record {
  tx_id = codes "b7";
  type = transfer;
  from = codes "miner";
  to = codes "alice";
  amount = coins 20;
  fee = coins 1;
  timestamp = pos 1700000001;
  signature = [];
  outputs = [];
}

abbrev pub sample_header : ℕ → BlockHeader
sample_header h = record {
  version = 2;
  prev_hash = if h == 0 then zero_hash else any_hash;
  merkle_root = zero_hash;
  timestamp = pos (1700000000 + h);
  bits = easy_bits;
  nonce = 0;
  height = h;
}

unfoldable pub sample_block : ℕ → Block ℕ
sample_block h = record {
  header = sample_header h;
  transactions = payment (codes "a6") ∷ sending ∷ [];
  hash = any_hash;
}

-- An encoding of the sample blocks by their heights, and of the stakes below 2 ^ 64.
instance unfoldable pub by_height : Json ℕ
by_height = record {
  marshal_float = put_big 8;
  unmarshal_float = λ b. some (of_big b);
  marshal_stake = λ s.
      if ltb s.amount (2 ^ 64)
      then some (put_big 8 s.amount ++ (put_big 8 s.block_height ++ s.address))
      else none;
  unmarshal_stake = λ b. none;
  marshal_block = λ b. put_big 8 b.header.height;
  unmarshal_block = λ b. some (sample_block (of_big b % 2 ^ 64));
  fill_block = λ b. sample_block (of_big b % 2 ^ 64);
  marshal_tx = λ tx. tx.tx_id ++ put_big 8 tx.amount;
  marshal_core = λ tx. tx.from ++ (tx.to ++ put_big 8 tx.amount);
}

abbrev pub sample_config : NetworkConfig ℕ
sample_config = record {
  name = codes "DevInsiderCoin";
  ticker = codes "DVC";
  network_id = 1;
  algorithm = codes "sha256d";
  consensus_type = codes "hybrid";
  block_time_seconds = pos 60;
  initial_reward = coins 50;
  pow_reward_share = 50000000;
  pos_reward_share = 50000000;
  halving_interval = 210000;
  max_supply = coins 21000000;
  difficulty_adjust_interval = 2016;
  min_difficulty_bits = easy_bits;
  genesis_timestamp = [];
  genesis_message = [];
  p2p_port = pos 9333;
  rpc_port = pos 9332;
  address_prefix = codes "D";
  protocol_version = 1;
  min_stake_amount = coins 1;
  stake_lock_blocks = 100;
  max_block_size = 8388608;
  max_block_transactions = 10000;
  pos_min_threshold = coins 100;
  difficulty_epoch_blocks = 500000;
}
