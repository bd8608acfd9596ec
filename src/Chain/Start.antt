-- ===== src/Chain/Start.antt =====
-- internal/blockchain/chain.go: `NewBlockchain`, which loads the chain from the store, or takes it
-- over from a file of an older version, or starts it with the genesis block. `d` is the state of the
-- opened database; the older file is a parameter, `none` where it is missing or does not decode.
pub mod Fresh
pub mod Restart
pub mod Migration
use devinsidercoin.Prelude.{
  ℕ, Bool, true, false, Option, none, some, List, [], ◌∷◌, map, foldl, get_last?, if◌then◌else◌,
  Str,
}
use devinsidercoin.Prelude.Int.{ℤ, to_word64}
use devinsidercoin.Prelude.Dict.{Dict, insert}
use devinsidercoin.Prelude.Float64.{Float64}
use devinsidercoin.Config.{NetworkConfig}
use devinsidercoin.Block.{Block}
use devinsidercoin.Genesis.{create_genesis_block}
use devinsidercoin.Stakes.{Stake, Stakes}
use devinsidercoin.Storage.Database.{Bolt}
use devinsidercoin.Storage.Encoding.{Json}
use devinsidercoin.Storage.{
  BlockCommit, ◌>>=◌, get_best_height, has_data, get_all_balances, get_all_stakes_raw,
  get_total_minted, commit_block,
}
use devinsidercoin.Chain.{Blockchain, collect_tx_ids, load_block}

-- `oldChainData`. A missing map is `none`; blocks and stakes that are null are left out.
pub record OldChain (F : Type 0) : Type 0 where
  pub blocks : List (Block F)
  pub balances : Option (Dict F)
  pub stakes : Option (Stakes F)
  pub total_minted : F

abbrev pub or_empty {ℓ} : {V : Type ℓ} → Option (Dict V) → Dict V
or_empty none = []
or_empty (some m) = m

abbrev pub or_keep {ℓ} : {V : Type ℓ} → Option (Dict V) → Dict V → Dict V
or_keep none m = m
or_keep (some new) m = new

abbrev pub is_empty {ℓ} : {A : Type ℓ} → List A → Bool
is_empty [] = true
is_empty (x ∷ xs) = false

module _ {F : Type 0} ⦃fl : Float64 F⦄ ⦃js : Json F⦄ where
  -- `loadStakesFromDB`: what does not decode is passed over.
  unfoldable pub load_stakes : Dict (List ℕ) → Stakes F → Stakes F
  load_stakes [] stakes = stakes
  load_stakes ((addr, raw) ∷ entries) stakes =
      load_stakes entries
        (elim (js.unmarshal_stake raw) [ none ↦ stakes | some s ↦ insert addr s stakes ])

  -- The commit of a block of the older file; the last one carries all the state.
  unfoldable pub old_commit : OldChain F → Bool → Block F → BlockCommit F
  old_commit old is_last block = record {
    height = block.header.height;
    hash = block.hash;
    block_json = js.marshal_block block;
    balances = if is_last then or_empty old.balances else [];
    stakes = if is_last then map (λ e. (e.0, js.marshal_stake e.1)) (or_empty old.stakes) else [];
    tx_ids = collect_tx_ids block;
    total_minted = if is_last then old.total_minted else fl.literal 0 0;
  }

module _ {F : Type 0} ⦃fl : Float64 F⦄ ⦃js : Json F⦄ {D : Type 0} ⦃db : Bolt D⦄ where
  -- The loop of `migrateFromJSON`: false at the first commit that fails.
  unfoldable pub migrate_blocks : OldChain F → List (Block F) → D → Bool × D
  migrate_blocks old [] d = (true, d)
  migrate_blocks old (block ∷ blocks) d =
      elim (commit_block (old_commit old (is_empty blocks) block) d) [
        | none ↦ (false, d)
        | some d' ↦ migrate_blocks old blocks d'
      ]

  -- The end of `migrateFromJSON`.
  abbrev pub adopt : OldChain F → Blockchain F D → Bool × D → Bool × Blockchain F D
  adopt old bc (false, d) = (false, record bc { store = d })
  adopt old bc (true, d) = (
    true,
    record bc {
      store = d;
      balances = or_keep old.balances bc.balances;
      stakes = foldl (λ m e. insert e.0 e.1 m) bc.stakes (or_empty old.stakes);
      total_minted = old.total_minted;
      last_block = get_last? old.blocks;
    },
  )

  unfoldable pub migrate_from_json : Option (OldChain F) → Blockchain F D → Bool × Blockchain F D
  migrate_from_json none bc = (false, bc)
  migrate_from_json (some old) bc =
      if is_empty old.blocks
      then (false, bc)
      else adopt old bc (migrate_blocks old old.blocks bc.store)

  unfoldable pub genesis_commit : Blockchain F D → Block F → BlockCommit F
  genesis_commit bc genesis = record {
    height = 0;
    hash = genesis.hash;
    block_json = js.marshal_block genesis;
    balances = bc.balances;
    stakes = [];
    tx_ids = collect_tx_ids genesis;
    total_minted = fl.literal 0 0;
  }

  -- The branch of `NewBlockchain` for a store with data.
  unfoldable pub load_chain : Blockchain F D → Blockchain F D
  load_chain bc = record bc {
    balances = get_all_balances bc.store;
    total_minted = get_total_minted bc.store;
    stakes = load_stakes (get_all_stakes_raw bc.store) bc.stakes;
    last_block = load_block (to_word64 (get_best_height bc.store)) bc.store;
  }

  abbrev pub opened : NetworkConfig F → D → Blockchain F D
  opened cfg d = record {
    config = cfg;
    store = d;
    balances = [];
    stakes = [];
    mempool = [];
    total_minted = fl.literal 0 0;
    last_block = none;
  }

  module _ (sum256 : List ℕ → List ℕ) (parse_time : Str → Option ℤ) where
    -- The branch for a store without data and without an older file.
    unfoldable pub write_genesis : Blockchain F D → ℤ → Option (Blockchain F D)
    write_genesis bc now = do
      genesis ← create_genesis_block sum256 parse_time bc.config now
      d ← commit_block (genesis_commit bc genesis) bc.store
      some (record bc { store = d; last_block = some genesis })

    -- `NewBlockchain`; `none` is the exit of a failing write of the genesis block.
    unfoldable pub new_blockchain :
        NetworkConfig F → D → Option (OldChain F) → ℤ → Option (Blockchain F D)
    new_blockchain cfg d old now =
        let start = opened cfg d in
        if has_data d
        then some (load_chain start)
        else let migration = migrate_from_json old start in
          if migration.0 then some migration.1 else write_genesis migration.1 now
