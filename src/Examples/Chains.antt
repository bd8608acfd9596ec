-- ===== src/Examples/Chains.antt =====
-- The theorems on the store and the chain, applied.
use devinsidercoin.Prelude.{ℕ, ◌≡◌, ◌↔◌, refl, none, some, List, [], ◌∷◌, arith, codes, str_eq}
use devinsidercoin.Prelude.Dict.{lookup, insert, get_or}
use devinsidercoin.Block.{Block, compute_hash, serialize, sha256d, pad_hash_bytes}
use devinsidercoin.Pow.{check_proof_of_work, bits_to_target, progressive_difficulty_floor}
use devinsidercoin.Ledger.{
  apply_transactions, apply_kind, apply_mint, apply_transfer, credit_output, set_balance,
}
use devinsidercoin.Bytes.{put_big, of_big, put_little, decode_string, encode_to_string}
use devinsidercoin.Storage.{
  BlockCommit, height_key, get_block_count, get_best_height, commit_block, commit_writes, update,
  write_all, float_to_bytes, total_minted_key,
}
use devinsidercoin.Storage.Database.{meta}
use devinsidercoin.Storage.Commit.{IsCommitted, commit_block-IsCommitted}
use devinsidercoin.Chain.{
  Blockchain, commit_failed, validate_block, connect_block, block_commit, is_unlinked,
  is_below_floor, collect_tx_ids, block_effects, apply_effects, add_block,
}
use devinsidercoin.Chain.Validate.{IsNext, validate_block_iff}
use devinsidercoin.Chain.Add.{IsAdded, add_block-IsAdded, add_block_blank}
use devinsidercoin.Chain.Agree.{Agrees, add_block-Agrees}
use devinsidercoin.Chain.Linked.{IsLinked}
use devinsidercoin.Examples.{
  fixed, by_height, checksum, coins, payment, sample_block, sample_config, any_hash,
}
use devinsidercoin.Examples.Store.{Entry, entries, entries-IsBolt, store_key, drop_key, find}

abbrev small_commit : BlockCommit ℕ
small_commit = record {
  height = 0;
  hash = any_hash;
  block_json = codes "block";
  balances = (codes "miner", coins 50) ∷ [];
  stakes = (codes "bob", none) ∷ [];
  tx_ids = codes "a6" ∷ [];
  total_minted = coins 50;
}

stored : List Entry
stored = elim (commit_block small_commit []) [ none ↦ [] | some es ↦ es ]

small_commit_succeeds : commit_block small_commit [] ≡ some stored
unfolding commit_block update commit_writes stored write_all height_key float_to_bytes put_big
    encode_to_string entries by_height store_key drop_key str_eq
small_commit_succeeds = refl

commit_block-IsCommitted_example : IsCommitted small_commit [] stored
unfolding lookup
commit_block-IsCommitted_example =
    commit_block-IsCommitted entries-IsBolt small_commit [] stored (refl, tt) (refl, tt)
      small_commit_succeeds

abbrev pub empty_chain : Blockchain ℕ (List Entry)
empty_chain = record {
  config = sample_config;
  store = [];
  balances = [];
  stakes = [];
  mempool = payment (codes "c8") ∷ [];
  total_minted = 0;
  last_block = none;
}

validate_block_iff_example :
    (validate_block checksum empty_chain (sample_block 0) ≡ none)
    ↔ IsNext checksum empty_chain (sample_block 0)
validate_block_iff_example = validate_block_iff checksum empty_chain (sample_block 0)

add_block-IsAdded_example :
    IsAdded checksum empty_chain (sample_block 0) (add_block checksum empty_chain (sample_block 0))
unfolding sample_block
add_block-IsAdded_example =
    add_block-IsAdded entries-IsBolt checksum empty_chain (sample_block 0) (omega arith)

blank_block : Block ℕ
blank_block = record (sample_block 0) { transactions = payment [] ∷ [] }

blank_block-IsNext : IsNext checksum empty_chain blank_block
unfolding blank_block validate_block is_unlinked is_below_floor get_block_count get_best_height
    entries find sample_block check_proof_of_work compute_hash sha256d serialize pad_hash_bytes
    put_little decode_string encode_to_string checksum bits_to_target progressive_difficulty_floor
    by_height put_big of_big str_eq
blank_block-IsNext = (validate_block_iff checksum empty_chain blank_block).0 refl

add_block_blank_example :
    add_block checksum empty_chain blank_block
    ≡ (some commit_failed, apply_effects empty_chain (block_effects empty_chain blank_block))
unfolding blank_block collect_tx_ids str_eq
add_block_blank_example =
    add_block_blank entries-IsBolt checksum empty_chain blank_block blank_block-IsNext refl

pub empty_chain-IsLinked : IsLinked checksum empty_chain
unfolding get_block_count get_best_height entries find
empty_chain-IsLinked = record {
  bounded = omega arith;
  stored_at = λ h lt. absurd (omega (arith, lt));
  exact = λ k v e. absurd (cc e);
  links = λ h under block lt e1 e2. absurd (omega (arith, lt));
  last = λ h e. absurd (omega (arith, e));
}

-- A chain whose database holds the amount minted.
abbrev minted_chain : Blockchain ℕ (List Entry)
minted_chain = record empty_chain {
  store = record { bucket = meta; key = total_minted_key; value = put_big 8 0 } ∷ [];
}

minted_chain-Agrees : Agrees minted_chain
unfolding entries find str_eq lookup by_height float_to_bytes
minted_chain-Agrees = record { balance_at = λ a. refl; stake_at = λ a. refl; minted = refl }

accepted : (add_block checksum minted_chain (sample_block 0)).0 ≡ none
unfolding add_block validate_block is_unlinked is_below_floor get_block_count get_best_height
    entries find sample_block check_proof_of_work compute_hash sha256d serialize pad_hash_bytes
    put_little decode_string encode_to_string checksum bits_to_target progressive_difficulty_floor
    by_height put_big of_big str_eq connect_block commit_block commit_writes update write_all
    store_key drop_key block_commit block_effects apply_effects apply_transactions apply_kind
    apply_mint apply_transfer credit_output set_balance insert lookup get_or fixed height_key
    float_to_bytes collect_tx_ids
accepted = refl

add_block-Agrees_example : Agrees (add_block checksum minted_chain (sample_block 0)).1
unfolding sample_block
add_block-Agrees_example =
    add_block-Agrees entries-IsBolt checksum minted_chain (sample_block 0) (omega arith)
      minted_chain-Agrees (λ failed. cc (accepted, failed))
