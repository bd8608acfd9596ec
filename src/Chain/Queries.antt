-- ===== src/Chain/Queries.antt =====
-- internal/blockchain/chain.go: the queries. They leave the state as it is.
use devinsidercoin.Prelude.{
  ℕ, zero, suc, ◌+◌, Bool, true, false, ◌||◌, Option, none, some, List, [], ◌∷◌, ◌++◌,
  if◌then◌else◌, Str, str_eq,
}
use devinsidercoin.Block.{Block, Transaction, TxOutput}
use devinsidercoin.Storage.Database.{Bolt}
use devinsidercoin.Storage.Encoding.{Json}
use devinsidercoin.Storage.{get_block_count, get_block_by_hash, get_blocks_from}
use devinsidercoin.Chain.{Blockchain, load_block}

module _ {F : Type 0} where
  unfoldable pub pays : Str → List (TxOutput F) → Bool
  pays address [] = false
  pays address (out ∷ outputs) =
      let rest = pays address outputs in if str_eq out.address address then true else rest

  unfoldable pub involves : Str → Transaction F → Bool
  unfolding pays
  involves address tx =
      if str_eq tx.from address || str_eq tx.to address then true else pays address tx.outputs

  -- The loop over the transactions of a block.
  unfoldable pub transactions_of : Str → List (Transaction F) → List (Transaction F)
  transactions_of address [] = []
  transactions_of address (tx ∷ txs) =
      let rest = transactions_of address txs in if involves address tx then tx ∷ rest else rest

module _ {F : Type 0} ⦃js : Json F⦄ where
  -- The loop of `GetBlocks`: what does not decode is passed over.
  unfoldable pub decode_all : List (List ℕ) → List (Block F)
  decode_all [] = []
  decode_all (raw ∷ raws) =
      let rest = decode_all raws in
      elim (js.unmarshal_block raw) [ none ↦ rest | some block ↦ block ∷ rest ]

module _ {F : Type 0} ⦃js : Json F⦄ {D : Type 0} ⦃db : Bolt D⦄ where
  -- The transactions of the address in the block at the height.
  unfoldable pub transactions_at : Str → ℕ → D → List (Transaction F)
  transactions_at address h d = elim (load_block h d) [
    | none ↦ []
    | some block ↦ transactions_of address block.transactions
  ]

  -- The rounds of the loop of `GetTransactions` from height `h` on.
  unfoldable pub transactions_between : Str → ℕ → ℕ → D → List (Transaction F)
  transactions_between address zero h d = []
  transactions_between address (suc rounds) h d =
      transactions_at address h d ++ transactions_between address rounds (h + 1) d

  unfoldable pub get_transactions : Str → Blockchain F D → List (Transaction F)
  get_transactions address bc = transactions_between address (get_block_count bc.store) 0 bc.store

  -- `GetBlockByHash`; a block that does not decode is what decoding leaves of it.
  unfoldable pub find_block : Str → Blockchain F D → Option (Block F)
  find_block hash bc = elim (get_block_by_hash hash bc.store) [
    | none ↦ none
    | some raw ↦ some (js.fill_block raw)
  ]

  unfoldable pub get_blocks : ℕ → Blockchain F D → List (Block F)
  get_blocks start bc = decode_all (get_blocks_from start bc.store)
