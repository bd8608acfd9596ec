-- ===== src/Chain/History.antt =====
-- What the queries answer after a block.
use devinsidercoin.Prelude.{
  ℕ, zero, suc, ◌+◌, ◌<◌, ◌^◌, ◌≡◌, refl, sym, ap, ◌∙◌, true, false, Option, none, some, List, ◌++◌,
  append-nil, append_assoc, arith, ◌==◌, if◌then◌else◌, Str,
}
use devinsidercoin.Prelude.Float64.{Float64}
use devinsidercoin.Block.{Block, Transaction}
use devinsidercoin.Storage.Database.{Bolt, IsBolt}
use devinsidercoin.Storage.Encoding.{Json}
use devinsidercoin.Chain.Validate.{IsNext}
use devinsidercoin.Chain.Add.{IsAdded, IsConnected, add_block-IsAdded}
use devinsidercoin.Chain.Linked.{load_block-committed}
use devinsidercoin.Chain.{Blockchain, BlockError, load_block, block_commit, add_block}
use devinsidercoin.Chain.Queries.{
  transactions_of, transactions_at, transactions_between, get_transactions,
}

module _ {F : Type 0} ⦃js : Json F⦄ {D : Type 0} ⦃db : Bolt D⦄ where
  transactions_between-suc :
      (a : Str) (rounds h : ℕ) (d : D)
      → transactions_between {F = F} a (suc rounds) h d
        ≡ transactions_between a rounds h d ++ transactions_at a (h + rounds) d
  unfolding transactions_between
  transactions_between-suc a zero h d =
      append-nil (transactions_at a h d) ∙ ap (λ k. transactions_at a k d) (omega arith)
  transactions_between-suc a (suc rounds) h d =
      ap (λ txs. transactions_at a h d ++ txs)
        (transactions_between-suc a rounds (h + 1) d
          ∙ ap (λ k. transactions_between a rounds (h + 1) d ++ transactions_at a k d)
              (omega arith))
      ∙ sym (append_assoc (transactions_at a h d) (transactions_between a rounds (h + 1) d) _)

  transactions_between-same :
      (a : Str) (rounds h : ℕ) (d d' : D)
      → ((k : ℕ) → k < h + rounds → load_block {F = F} k d' ≡ load_block k d)
      → transactions_between {F = F} a rounds h d' ≡ transactions_between a rounds h d
  unfolding transactions_between transactions_at
  transactions_between-same a zero h d d' same = refl
  transactions_between-same a (suc rounds) h d d' same =
      rw
        (
          same h (omega arith),
          transactions_between-same a rounds (h + 1) d d' (λ k lt. same k (omega (arith, lt))),
          transactions_at,
        )
        refl

module _ {F : Type 0} ⦃fl : Float64 F⦄ ⦃js : Json F⦄ {D : Type 0} ⦃db : Bolt D⦄ (laws : IsBolt D)
    (sum256 : List ℕ → List ℕ) where
  connected-transactions :
      (a : Str) (bc after : Blockchain F D) (block : Block F)
      → block.header.height < 2 ^ 63
      → js.unmarshal_block (js.marshal_block block) ≡ some block
      → IsNext sum256 bc block
      → IsConnected bc block after
      → get_transactions a after ≡ get_transactions a bc ++ transactions_of a block.transactions
  unfolding get_transactions
  connected-transactions a bc after block low decoded next c =
      let n = block.header.height in
      ap (λ k. transactions_between a k 0 after.store) (c.count ∙ omega arith)
      ∙ transactions_between-suc a n 0 after.store
      ∙ ap2
          (transactions_between-same a n 0 bc.store after.store
            (λ k lt. below k (omega (arith, lt))))
          at_top
      ∙ ap (λ k. transactions_between a k 0 bc.store ++ transactions_of a block.transactions)
          next.height
    where
      ap2 : {x x' y y' : List (Transaction F)} → x ≡ x' → y ≡ y' → x ++ y ≡ x' ++ y'
      ap2 e e' = rw (e, e') refl

      loaded :
          (k : ℕ)
          → k < 2 ^ 63
          → load_block {F = F} k after.store
            ≡ (if block.header.height == k then some block else load_block k bc.store)
      loaded k lt =
          load_block-committed (block_commit bc block) bc.store after.store k c.committed
            (unfold block_commit in low) lt
          ∙ unfold block_commit in rw decoded refl

      below :
          (k : ℕ)
          → k < block.header.height
          → load_block {F = F} k after.store ≡ load_block k bc.store
      below k lt =
          let apart : block.header.height == k ≡ false = ground arith in
          loaded k (omega arith) ∙ rw apart refl

      at_top :
          transactions_at a (0 + block.header.height) after.store
          ≡ transactions_of a block.transactions
      at_top =
          let same : block.header.height == 0 + block.header.height ≡ true = ground arith in
          let top : load_block {F = F} (0 + block.header.height) after.store ≡ some block =
            loaded _ (omega arith) ∙ rw same refl in
          unfold transactions_at in rw (top, transactions_at) refl

  pub add_block-get_transactions :
      (a : Str) (bc : Blockchain F D) (block : Block F)
      → block.header.height < 2 ^ 63
      → js.unmarshal_block (js.marshal_block block) ≡ some block
      → (add_block sum256 bc block).0 ≡ none
      → get_transactions a (add_block sum256 bc block).1
        ≡ get_transactions a bc ++ transactions_of a block.transactions
  add_block-get_transactions a bc block low decoded done =
      cases (add_block sum256 bc block) (add_block-IsAdded laws sum256 bc block low) done
    where
      cases :
          (r : Option BlockError × Blockchain F D)
          → IsAdded sum256 bc block r
          → r.0 ≡ none
          → get_transactions a r.1 ≡ get_transactions a bc ++ transactions_of a block.transactions
      cases (none, after) added done =
          connected-transactions a bc after block low decoded added.0 added.1
      cases (some e, after) added done = cc
