-- ===== src/Examples/Starts.antt =====
-- The theorems on the start of the chain, applied.
use devinsidercoin.Prelude.{
  ℕ, ◌≡◌, refl, true, Bool, Option, none, some, List, [], ◌∷◌, arith, codes,
}
use devinsidercoin.Prelude.Int.{ℤ, pos}
use devinsidercoin.Prelude.Dict.{lookup}
use devinsidercoin.Bytes.{put_big, encode_to_string}
use devinsidercoin.Block.{
  Block, sha256d, compute_tx_id, compute_hash, compute_merkle_root, merkle_loop,
}
use devinsidercoin.Genesis.{genesis_coinbase, create_genesis_block}
use devinsidercoin.Storage.{
  get_block_count, BlockCommit, commit_block, height_key, update, commit_writes, write_all,
  float_to_bytes,
}
use devinsidercoin.Storage.Encoding.{Json}
use devinsidercoin.Storage.Total.{IsStorable}
use devinsidercoin.Chain.{Blockchain, collect_tx_ids}
use devinsidercoin.Chain.Agree.{Agrees}
use devinsidercoin.Chain.Linked.{IsLinked}
use devinsidercoin.Chain.Start.{
  OldChain, opened, genesis_commit, new_blockchain, migrate_blocks, old_commit,
}
use devinsidercoin.Chain.Start.Fresh.{IsBlank, new_blockchain-fresh}
use devinsidercoin.Chain.Start.Migration.{new_blockchain-migrated}
use devinsidercoin.Examples.{
  fixed, by_height, checksum, coins, sample_block, sample_config, any_hash,
}
use devinsidercoin.Examples.Store.{Entry, entries, entries-IsBolt, find, store_key, drop_key}

abbrev pub no_time : List ℕ → Option ℤ
no_time s = none

abbrev some_commit : BlockCommit ℕ
some_commit = record {
  height = 0;
  hash = any_hash;
  block_json = codes "block";
  balances = (codes "miner", coins 50) ∷ [];
  stakes = (codes "bob", none) ∷ [];
  tx_ids = codes "a6" ∷ [];
  total_minted = coins 50;
}

abbrev pub old_file : OldChain ℕ
old_file = record {
  blocks = sample_block 0 ∷ [];
  balances = some ((codes "miner", coins 50) ∷ []);
  stakes = none;
  total_minted = coins 50;
}

-- The genesis block at the clock's reading 1700000000.
pub genesis : Block ℕ
genesis =
    elim (create_genesis_block checksum ⦃js = by_height⦄ no_time sample_config (pos 1700000000)) [
      | none ↦ sample_block 0
      | some block ↦ block
    ]

-- An encoding of that block.
instance unfoldable pub only_genesis : Json ℕ
only_genesis = record by_height { unmarshal_block = λ b. some genesis; fill_block = λ b. genesis }

genesis_made :
    create_genesis_block checksum ⦃js = only_genesis⦄ no_time sample_config (pos 1700000000)
    ≡ some genesis
unfolding genesis only_genesis create_genesis_block compute_merkle_root merkle_loop genesis_coinbase
    compute_tx_id by_height
genesis_made = refl

genesis-IsStorable : IsStorable ⦃js = only_genesis⦄ (
    genesis_commit ⦃js = only_genesis⦄ {D = List Entry} ⦃db = entries⦄
      (opened ⦃js = only_genesis⦄ sample_config [])
      genesis)
unfolding genesis only_genesis genesis_commit create_genesis_block compute_merkle_root merkle_loop
    genesis_coinbase compute_tx_id compute_hash encode_to_string sha256d checksum by_height put_big
    collect_tx_ids float_to_bytes
genesis-IsStorable = record {
  hash = (omega arith, omega arith);
  block_json = omega arith;
  balances = tt;
  stakes = tt;
  tx_ids = ((omega arith, omega arith), tt);
  total_minted = omega arith;
}

pub genesis_fits :
    (block : Block ℕ)
    → create_genesis_block checksum ⦃js = only_genesis⦄ no_time sample_config (pos 1700000000)
      ≡ some block
    → IsStorable ⦃js = only_genesis⦄ (
        genesis_commit ⦃js = only_genesis⦄ {D = List Entry} ⦃db = entries⦄
          (opened ⦃js = only_genesis⦄ sample_config [])
          block)
      × (only_genesis.unmarshal_block (only_genesis.marshal_block block) ≡ some block)
unfolding only_genesis
genesis_fits block made =
    let same : genesis ≡ block = cc (genesis_made, made) in rw (← same) (genesis-IsStorable, refl)

pub empty-IsBlank : IsBlank {D = List Entry} []
unfolding entries find
empty-IsBlank = record { blank = λ b k. refl }

new_blockchain-fresh_example :
    (bc : Blockchain ℕ (List Entry)) × (new_blockchain ⦃js = only_genesis⦄ checksum no_time
        sample_config [] none
        (pos 1700000000)
      ≡ some bc)
    × (get_block_count bc.store ≡ 1)
    × IsLinked checksum ⦃js = only_genesis⦄ bc
    × Agrees ⦃js = only_genesis⦄ bc
unfolding entries only_genesis
new_blockchain-fresh_example =
    new_blockchain-fresh checksum ⦃js = only_genesis⦄ entries-IsBolt no_time sample_config []
      (pos 1700000000) empty-IsBlank (λ after. refl) genesis_fits

migrated : Bool × List Entry
migrated = migrate_blocks ⦃js = by_height⦄ old_file old_file.blocks []

new_blockchain-migrated_example :
    (bc : Blockchain ℕ (List Entry)) × (new_blockchain ⦃js = by_height⦄ checksum no_time
        sample_config []
        (some old_file)
        (pos 1700000000)
      ≡ some bc)
    × (bc.store ≡ migrated.1)
    × (bc.last_block ≡ some (sample_block 0))
    × Agrees ⦃js = by_height⦄ bc
new_blockchain-migrated_example =
    new_blockchain-migrated ⦃js = by_height⦄ entries-IsBolt old_file
      (record { balances = (unfold lookup in refl, tt); stakes = tt }) checksum no_time
      sample_config [] migrated.1 (pos 1700000000) empty-IsBlank refl migrated_all
  where
    migrated_all : migrate_blocks ⦃js = by_height⦄ old_file old_file.blocks [] ≡ (true, migrated.1)
    migrated_all =
        unfold migrated migrate_blocks old_commit commit_block update commit_writes write_all
          entries store_key drop_key by_height put_big encode_to_string height_key sample_block
          collect_tx_ids float_to_bytes in
        refl
