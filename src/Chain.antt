-- ===== src/Chain.antt =====
-- internal/blockchain/chain.go: the chain's state, the validation and the addition of a block, the
-- mempool and the queries. Every method holds the chain's lock, so it is one step on the state.
pub mod Validate
pub mod Add
pub mod Agree
pub mod Linked
pub mod Mempool
pub mod Template
pub mod Start
pub mod Queries
pub mod History
pub mod Growth
pub mod Accept
pub mod Behind
use devinsidercoin.Prelude.{
  ℕ, zero, suc, ◌+◌, ◌-◌, ◌*◌, ◌/◌, ◌%◌, Bool, true, false, not, ◌&&◌, ◌||◌, Option, none, some,
  List, [], ◌∷◌, ◌++◌, map, length, foldl, ltb, leb, ◌==◌, if◌then◌else◌, Str, str_eq,
}
use devinsidercoin.Prelude.Int.{ℤ, pos, negsuc, to_word64, ltb_ℤ}
use devinsidercoin.Prelude.Dict.{Dict, lookup, insert, get_or}
use devinsidercoin.Prelude.Float64.{Float64}
use devinsidercoin.Config.{NetworkConfig}
use devinsidercoin.Block.{
  Block, BlockHeader, Transaction, TxOutput, TxType, coinbase, transfer, stake, unstake, pos_reward,
  other, compute_hash,
}
use devinsidercoin.Pow.{bits_to_target, check_proof_of_work, progressive_difficulty_floor}
use devinsidercoin.Stakes.{Stakes, get_stake}
use devinsidercoin.Storage.Database.{Bolt}
use devinsidercoin.Storage.Encoding.{Json}
use devinsidercoin.Storage.Write.{contains}
use devinsidercoin.Storage.{
  BlockCommit, ◌>>=◌, get_best_height, get_block_count, get_block_by_height, get_block_by_hash,
  commit_block,
}
use devinsidercoin.Ledger.{Effects, balance_of, apply_transactions}

-- `store` is the state of the database.
pub record Blockchain (F D : Type 0) : Type 0 where
  pub config : NetworkConfig F
  pub store : D
  pub balances : Dict F
  pub stakes : Stakes F
  pub mempool : List (Transaction F)
  pub total_minted : F
  pub last_block : Option (Block F)

pub data BlockError : Type 0 where
  bad_height bad_prev_hash bad_hash insufficient_work too_many_transactions : BlockError
  block_too_large below_floor commit_failed : BlockError

-- An early return with an error.
abbrev pub refuse_if : Bool → BlockError → Option BlockError → Option BlockError
refuse_if true e later = some e
refuse_if false e later = later

module _ {F : Type 0} where
  unfoldable pub collect_tx_ids : Block F → List Str
  collect_tx_ids block = map (λ tx. tx.tx_id) block.transactions

  -- The transactions that no block transaction shares its identifier with.
  unfoldable pub remaining : List Str → List (Transaction F) → List (Transaction F)
  remaining ids [] = []
  remaining ids (tx ∷ txs) =
      let rest = remaining ids txs in if contains tx.tx_id ids then rest else tx ∷ rest

module _ {F : Type 0} ⦃js : Json F⦄ {D : Type 0} ⦃db : Bolt D⦄ where
  -- `none` is nil.
  unfoldable pub load_block : ℕ → D → Option (Block F)
  load_block height d = get_block_by_height height d >>= λ raw. js.unmarshal_block raw

module _ {F D : Type 0} ⦃db : Bolt D⦄ where
  unfoldable pub get_best : Blockchain F D → ℕ
  get_best bc = let h = get_best_height bc.store in if ltb_ℤ h (pos 0) then 0 else to_word64 h

  -- The block's previous hash is compared if there is a last block and the height is not zero.
  unfoldable pub is_unlinked : Blockchain F D → Block F → Bool
  is_unlinked bc block = elim bc.last_block [
    | none ↦ false
    | some last ↦ ltb 0 (get_block_count bc.store) && not (str_eq block.header.prev_hash last.hash)
  ]

module _ {F D : Type 0} where
  unfoldable pub is_below_floor : Blockchain F D → Block F → Bool
  is_below_floor bc block =
      let floor_bits =
        progressive_difficulty_floor block.header.height bc.config.difficulty_epoch_blocks
          bc.config.min_difficulty_bits in
      ltb (bits_to_target floor_bits) (bits_to_target block.header.bits)

module _ (sum256 : List ℕ → List ℕ) {F : Type 0} ⦃js : Json F⦄ {D : Type 0} ⦃db : Bolt D⦄ where
  -- `none` means that the block is valid.
  unfoldable pub validate_block : Blockchain F D → Block F → Option BlockError
  unfolding is_below_floor is_unlinked
  validate_block bc block =
      refuse_if (not (block.header.height == get_block_count bc.store)) bad_height (
        refuse_if (is_unlinked bc block) bad_prev_hash (
          refuse_if (not (str_eq block.hash (compute_hash sum256 block.header))) bad_hash (
            refuse_if (not (check_proof_of_work block.hash block.header.bits)) insufficient_work (
              refuse_if (ltb bc.config.max_block_transactions (length block.transactions))
                too_many_transactions
                (refuse_if (ltb bc.config.max_block_size (length (js.marshal_block block)))
                  block_too_large (refuse_if (is_below_floor bc block) below_floor none))))))

module _ {F : Type 0} ⦃fl : Float64 F⦄ ⦃js : Json F⦄ {D : Type 0} ⦃db : Bolt D⦄ where
  -- The state of the loop over the transactions, at its start and at its end.
  unfoldable pub block_effects : Blockchain F D → Block F → Effects F
  block_effects bc block =
      let start : Effects F = record {
        balances = bc.balances;
        stakes = bc.stakes;
        changed_balances = [];
        changed_stakes = [];
        minted = fl.literal 0 0;
      } in
      apply_transactions block.header.height block.transactions start

  -- The maps in memory are changed before the commit.
  unfoldable pub apply_effects : Blockchain F D → Effects F → Blockchain F D
  apply_effects bc e = record bc {
    balances = e.balances;
    stakes = e.stakes;
    total_minted = fl.add bc.total_minted e.minted;
  }

  unfoldable pub block_commit : Blockchain F D → Block F → BlockCommit F
  block_commit bc block =
      let e = block_effects bc block in
      record {
        height = block.header.height;
        hash = block.hash;
        block_json = js.marshal_block block;
        balances = e.changed_balances;
        stakes = e.changed_stakes;
        tx_ids = collect_tx_ids block;
        total_minted = fl.add bc.total_minted e.minted;
      }

  -- `AddBlock` after the validation.
  unfoldable pub connect_block : Blockchain F D → Block F → Option BlockError × Blockchain F D
  connect_block bc block =
      let applied = apply_effects bc (block_effects bc block) in
      elim (commit_block (block_commit bc block) bc.store) [
        | none ↦ (some commit_failed, applied)
        | some store ↦ (
          none,
          record applied {
            store = store;
            mempool = remaining (collect_tx_ids block) bc.mempool;
            last_block = some block;
          },
        )
      ]

module _ (sum256 : List ℕ → List ℕ) {F : Type 0} ⦃fl : Float64 F⦄ ⦃js : Json F⦄ {D : Type 0}
    ⦃db : Bolt D⦄ where
  -- The error, if any, and the state after the call.
  unfoldable pub add_block : Blockchain F D → Block F → Option BlockError × Blockchain F D
  add_block bc block = elim (validate_block sum256 bc block) [
    | some e ↦ (some e, bc)
    | none ↦ connect_block bc block
  ]
