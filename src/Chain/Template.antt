-- ===== src/Chain/Template.antt =====
-- internal/blockchain/chain.go: the block reward and the block template for a miner. The clock's
-- readings and SHA-256 are parameters.
pub mod Rewards
pub mod Usable
pub mod Valid
use devinsidercoin.Prelude.{
  ℕ, zero, suc, ◌/◌, ◌%◌, Bool, true, false, ◌&&◌, Option, none, some, List, [], ◌∷◌, ◌++◌, map,
  length, take, ltb, ◌==◌, if◌then◌else◌, Str,
}
use devinsidercoin.Prelude.Int.{ℤ, pos, ◌-ℤ◌, int64, of_word64, pos_part}
use devinsidercoin.Prelude.Float64.{Float64}
use devinsidercoin.Config.{NetworkConfig}
use devinsidercoin.Block.{
  Block, BlockHeader, Transaction, TxOutput, pos_reward, zero_hash, compute_tx_id,
  compute_merkle_root, new_coinbase_transaction,
}
use devinsidercoin.Pow.{calc_next_bits, apply_progressive_difficulty}
use devinsidercoin.Stakes.{dust, calc_pos_rewards}
use devinsidercoin.Storage.Database.{Bolt}
use devinsidercoin.Storage.Encoding.{Json}
use devinsidercoin.Storage.{◌>>=◌, get_block_count, get_recent_blocks}
use devinsidercoin.Chain.{Blockchain}

module _ {F : Type 0} ⦃fl : Float64 F⦄ where
  -- `reward /= 2`, for each halving.
  unfoldable pub halve : ℕ → F → F
  halve zero reward = reward
  halve (suc halvings) reward = halve halvings (fl.div reward (fl.literal 2 0))

  -- `CalcBlockReward`, of the configuration and the amount minted. `none` is the panic of a division
  -- by zero.
  unfoldable pub calc_block_reward : NetworkConfig F → F → ℕ → Option F
  calc_block_reward config total_minted height =
      if fl.le config.max_supply total_minted
      then some (fl.literal 0 0)
      else if config.halving_interval == 0
      then none
      else let reward = halve (height / config.halving_interval) config.initial_reward in
        if fl.lt reward dust
        then some (fl.literal 0 0)
        else let left = fl.sub config.max_supply total_minted in
          if fl.lt left reward then some left else some reward

module _ {F : Type 0} where
  unfoldable pub last_bits : Option (Block F) → ℕ → ℕ
  last_bits none min_bits = min_bits
  last_bits (some last) min_bits = last.header.bits

  unfoldable pub template_prev_hash : Option (Block F) → ℕ → Str
  template_prev_hash none height = zero_hash
  template_prev_hash (some last) zero = zero_hash
  template_prev_hash (some last) (suc below) = last.hash

module _ {F : Type 0} ⦃fl : Float64 F⦄ ⦃js : Json F⦄ {D : Type 0} ⦃db : Bolt D⦄ where
  -- `calcNextBitsFromDB`; `none` is a panic.
  unfoldable pub calc_next_bits_from_db : Blockchain F D → Option ℕ
  calc_next_bits_from_db bc =
      let interval = bc.config.difficulty_adjust_interval in
      let raw_blocks = get_recent_blocks interval bc.store in
      if ltb (length raw_blocks) interval
      then some (last_bits bc.last_block bc.config.min_difficulty_bits)
      else calc_next_bits {F = F} (map js.fill_block raw_blocks) interval
          bc.config.block_time_seconds bc.config.min_difficulty_bits

  -- The bits before the floor is applied: those of the last block, or new ones at the end of an
  -- interval. `none` is a panic.
  unfoldable pub template_bits : Blockchain F D → ℕ → Option ℕ
  template_bits bc zero = some bc.config.min_difficulty_bits
  template_bits bc (suc below) =
      let interval = bc.config.difficulty_adjust_interval in
      if interval == 0
      then none
      else if suc below % interval == 0
      then calc_next_bits_from_db bc
      else some (last_bits bc.last_block bc.config.min_difficulty_bits)

  -- The end of `CreateBlockTemplate`.
  abbrev pub assemble : Blockchain F D → ℕ → Str → List (Transaction F) → ℤ → Block F
  assemble bc bits merkle txs header_now =
      let height = get_block_count bc.store in
      record {
        header = record {
          version = 2;
          prev_hash = template_prev_hash bc.last_block height;
          merkle_root = merkle;
          timestamp = header_now;
          bits =
              apply_progressive_difficulty bits height bc.config.difficulty_epoch_blocks
                bc.config.min_difficulty_bits;
          nonce = 0;
          height = height;
        };
        transactions = txs;
        hash = [];
      }

  module _ (sum256 : List ℕ → List ℕ) where
    -- The coinbase, and the PoS reward if a stake is due one; `now` and `pos_now` are the times at
    -- which they are made.
    unfoldable pub reward_transactions : Blockchain F D → Str → F → ℤ → ℤ → List (Transaction F)
    reward_transactions bc miner total now pos_now =
        let pos_amount = fl.mul total bc.config.pos_reward_share in
        elim (calc_pos_rewards pos_amount bc.config.pos_min_threshold bc.stakes) [
          | [] ↦ new_coinbase_transaction sum256 js.marshal_core miner total now ∷ []
          | out ∷ outputs ↦
              let pos_tx : Transaction F = record {
                tx_id = [];
                type = pos_reward;
                from = [];
                to = [];
                amount = pos_amount;
                fee = fl.literal 0 0;
                timestamp = pos_now;
                signature = [];
                outputs = out ∷ outputs;
              } in
              new_coinbase_transaction sum256 js.marshal_core miner
                (fl.mul total bc.config.pow_reward_share) now
              ∷ record pos_tx { tx_id = compute_tx_id sum256 js.marshal_core pos_tx }
              ∷ []
        ]

    -- The rewards, and as much of the mempool as there is room for.
    unfoldable pub template_transactions :
        Blockchain F D → List (Transaction F) → List (Transaction F)
    template_transactions bc rewards =
        let room = int64 (of_word64 bc.config.max_block_transactions -ℤ pos (length rewards)) in
        rewards ++ take (pos_part room) bc.mempool

    -- `CreateBlockTemplate`; `none` is a panic.
    unfoldable pub create_block_template : Blockchain F D → Str → ℤ → ℤ → ℤ → Option (Block F)
    create_block_template bc miner now pos_now header_now = do
      let height = get_block_count bc.store
      total ← calc_block_reward bc.config bc.total_minted height
      let txs = template_transactions bc (reward_transactions bc miner total now pos_now)
      bits ← template_bits bc height
      merkle ← compute_merkle_root sum256 js.marshal_tx txs
      some (assemble bc bits merkle txs header_now)
