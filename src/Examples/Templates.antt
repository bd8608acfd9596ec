-- ===== src/Examples/Templates.antt =====
-- The theorems on rewards, the mempool and templates, applied.
use devinsidercoin.Prelude.{
  ℕ, ◌≡◌, ◌⊎◌, refl, str_eq, false, none, some, List, [], ◌∷◌, arith, ltb, codes,
}
use devinsidercoin.Prelude.Int.{pos, int64, of_word64, ◌-ℤ◌}
use devinsidercoin.Block.{
  Block, compute_hash, serialize, sha256d, pad_hash_bytes, compute_merkle_root, merkle_loop,
  merkle_level, leaf_hash, new_coinbase_transaction, compute_tx_id,
}
use devinsidercoin.Bytes.{put_big, of_big, put_little, decode_string, encode_to_string}
use devinsidercoin.Storage.{get_block_count, get_best_height}
use devinsidercoin.Pow.{
  check_proof_of_work, bits_to_target, apply_progressive_difficulty, progressive_difficulty_floor,
}
use devinsidercoin.Stakes.{calc_pos_rewards, eligible_staked}
use devinsidercoin.Chain.{Blockchain}
use devinsidercoin.Chain.Validate.{IsNext}
use devinsidercoin.Chain.Template.{
  calc_block_reward, create_block_template, template_bits, template_prev_hash, halve,
  template_transactions, reward_transactions,
}
use devinsidercoin.Chain.Template.Rewards.{calc_block_reward-le}
use devinsidercoin.Chain.Template.Usable.{IsUsable}
use devinsidercoin.Chain.Template.Valid.{
  mined, create_block_template_total, create_block_template-IsNext,
}
use devinsidercoin.Examples.{
  fixed, by_height, checksum, checksum-IsByte, coins, payment, sample_block, sample_config,
}
use devinsidercoin.Examples.Store.{Entry, entries, find}

irreflexive : (x : ℕ) → ltb x x ≡ false
irreflexive x = ground arith

calc_block_reward-le_example :
    (reward : ℕ) × (calc_block_reward sample_config (coins 20999990) 7 ≡ some reward)
    × ((reward ≡ fixed.literal 0 0)
        ⊎ ((fixed.le sample_config.max_supply (coins 20999990) ≡ false)
            × (fixed.lt (fixed.sub sample_config.max_supply (coins 20999990)) reward ≡ false)))
unfolding fixed
calc_block_reward-le_example =
    calc_block_reward-le sample_config (coins 20999990) 7 (omega arith) irreflexive

abbrev pub funded : Blockchain ℕ (List Entry)
funded = record {
  config = sample_config;
  store = [];
  balances = (codes "miner", coins 30) ∷ [];
  stakes = [];
  mempool = payment (codes "c8") ∷ [];
  total_minted = coins 30;
  last_block = none;
}

pub funded-IsUsable : IsUsable funded.config 60
funded-IsUsable = record {
  halving = omega arith;
  time = refl;
  span = record {
    interval_pos = omega arith;
    interval_lt = omega arith;
    expected_pos = omega arith;
    expected_lt = omega arith;
  };
  bits_lt = omega arith;
  room = omega arith;
  room_lt = omega arith;
}

create_block_template_total_example :
    (t : Block ℕ) × (create_block_template checksum funded
        (codes "miner")
        (pos 1700000000)
        (pos 1700000001)
        (pos 1700000002)
      ≡ some t)
create_block_template_total_example =
    create_block_template_total checksum funded 60 (codes "miner") (pos 1700000000) (pos 1700000001)
      (pos 1700000002) funded-IsUsable (λ bytes. (checksum-IsByte bytes).0)

template : Block ℕ
template =
    elim (create_block_template checksum funded (codes "miner") (pos 1700000000) (pos 1700000001)
      (pos 1700000002)) [ none ↦ sample_block 0 | some t ↦ t ]

template_made :
    create_block_template checksum funded
      (codes "miner")
      (pos 1700000000)
      (pos 1700000001)
      (pos 1700000002)
    ≡ some template
unfolding template create_block_template get_block_count get_best_height entries find str_eq
    template_bits template_prev_hash apply_progressive_difficulty progressive_difficulty_floor
    bits_to_target calc_block_reward halve fixed template_transactions reward_transactions
    calc_pos_rewards eligible_staked compute_merkle_root merkle_loop merkle_level leaf_hash sha256d
    checksum by_height put_big encode_to_string new_coinbase_transaction compute_tx_id int64
    of_word64 ◌-ℤ◌
template_made = refl

create_block_template-IsNext_example : IsNext checksum funded (mined checksum template 5)
unfolding template create_block_template get_block_count get_best_height entries find str_eq
    template_bits template_prev_hash apply_progressive_difficulty progressive_difficulty_floor
    bits_to_target calc_block_reward halve fixed template_transactions reward_transactions
    calc_pos_rewards eligible_staked compute_merkle_root merkle_loop merkle_level leaf_hash sha256d
    checksum by_height put_big encode_to_string new_coinbase_transaction compute_tx_id int64
    of_word64 ◌-ℤ◌ check_proof_of_work compute_hash serialize pad_hash_bytes put_little
    decode_string of_big
create_block_template-IsNext_example =
    create_block_template-IsNext checksum funded 60 5 (codes "miner") (pos 1700000000)
      (pos 1700000001) (pos 1700000002) template funded-IsUsable template_made refl (omega arith)
