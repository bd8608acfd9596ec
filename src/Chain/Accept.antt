-- ===== src/Chain/Accept.antt =====
-- internal/blockchain/chain.go: when `AddBlock` succeeds.
use devinsidercoin.Prelude.{ℕ, ◌+◌, ◌<◌, ◌^◌, ◌≡◌, refl, ap, ◌∙◌, true, Option, none, some, List}
use devinsidercoin.Prelude.Float64.{Float64}
use devinsidercoin.Block.{Block}
use devinsidercoin.Storage.Database.{Bolt, IsBolt}
use devinsidercoin.Storage.Encoding.{Json}
use devinsidercoin.Storage.{get_block_count}
use devinsidercoin.Storage.Total.{IsStorable, commit_block_total}
use devinsidercoin.Chain.{
  Blockchain, BlockError, bad_height, bad_prev_hash, bad_hash, insufficient_work,
  too_many_transactions, block_too_large, below_floor, commit_failed, block_commit, add_block,
}
use devinsidercoin.Chain.Validate.{IsNext}
use devinsidercoin.Chain.Add.{IsAdded, add_block-IsAdded}

module _ {F : Type 0} ⦃fl : Float64 F⦄ ⦃js : Json F⦄ {D : Type 0} ⦃db : Bolt D⦄ where
  -- The result of a call that has accepted the block.
  pub record IsAccepted (bc : Blockchain F D) (block : Block F)
      (r : Option BlockError × Blockchain F D) : Type 0 where
    pub no_error : r.0 ≡ none
    pub count : get_block_count r.1.store ≡ get_block_count bc.store + 1
    pub last_block : r.1.last_block ≡ some block

  -- Under bbolt's laws, a block that is the next one, at a height that an int64 holds, is accepted
  -- if its commit is within bbolt's limits and the file can be written.
  pub add_block-IsAccepted :
      IsBolt D
      → (sum256 : List ℕ → List ℕ) (bc : Blockchain F D) (block : Block F)
      → block.header.height < 2 ^ 63
      → IsNext sum256 bc block
      → IsStorable (block_commit bc block)
      → ((after : D) → db.flush after ≡ true)
      → IsAccepted bc block (add_block sum256 bc block)
  add_block-IsAccepted laws sum256 bc block low next fit flushed =
      cases (add_block sum256 bc block) (add_block-IsAdded laws sum256 bc block low)
    where
      cases :
          (r : Option BlockError × Blockchain F D)
          → IsAdded sum256 bc block r
          → IsAccepted bc block r
      cases (none, after) added = record {
        no_error = refl;
        count = added.1.count ∙ ap (λ k. k + 1) next.height;
        last_block = added.1.last_block;
      }
      cases (some commit_failed, after) added =
          let (store, done) =
            commit_block_total laws (block_commit bc block) bc.store fit flushed in
          absurd (cc (added.1, done))
      cases (some bad_height, after) added = absurd (added.0 next)
      cases (some bad_prev_hash, after) added = absurd (added.0 next)
      cases (some bad_hash, after) added = absurd (added.0 next)
      cases (some insufficient_work, after) added = absurd (added.0 next)
      cases (some too_many_transactions, after) added = absurd (added.0 next)
      cases (some block_too_large, after) added = absurd (added.0 next)
      cases (some below_floor, after) added = absurd (added.0 next)
