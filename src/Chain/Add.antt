-- ===== src/Chain/Add.antt =====
-- `AddBlock` on every branch.
use devinsidercoin.Prelude.{
  ℕ, ◌+◌, ◌<◌, ◌^◌, ◌≡◌, refl, Bool, true, false, Option, none, some, inl, inr, List, [], ◌∷◌, Str,
  str_eq, ltb, ◌==◌, not, length, Bool-cases, Option-cases,
}
use devinsidercoin.Prelude.Dict.{lookup}
use devinsidercoin.Prelude.Float64.{Float64}
use devinsidercoin.Block.{Block, Transaction, compute_hash}
use devinsidercoin.Pow.{check_proof_of_work}
use devinsidercoin.Storage.Database.{Bolt, IsBolt}
use devinsidercoin.Storage.Encoding.{Json}
use devinsidercoin.Storage.Write.{contains}
use devinsidercoin.Storage.Commit.{IsCommitted, commit_block-IsCommitted}
use devinsidercoin.Storage.Reads.{committed_reads, commit_block_blank}
use devinsidercoin.Storage.{get_block_count, get_block_by_height, get_block_by_hash, commit_block}
use devinsidercoin.Ledger.Changed.{IsTracked, apply_transactions-IsTracked}
use devinsidercoin.Chain.Validate.{IsNext, validate_block_iff}
use devinsidercoin.Chain.{
  Blockchain, BlockError, bad_height, bad_prev_hash, bad_hash, insufficient_work,
  too_many_transactions, block_too_large, below_floor, commit_failed, refuse_if, is_unlinked,
  is_below_floor, collect_tx_ids, remaining, validate_block, block_effects, apply_effects,
  block_commit, connect_block, add_block,
}

-- Nothing that stays in the mempool is in the block.
abbrev pub AreOthers : {F : Type 0} → List Str → List (Transaction F) → Type 0
AreOthers ids [] = Unit
AreOthers ids (tx ∷ txs) = (contains tx.tx_id ids ≡ false) × AreOthers ids txs

remaining-AreOthers :
    {F : Type 0} (ids : List Str) (txs : List (Transaction F)) → AreOthers ids (remaining ids txs)
unfolding remaining
remaining-AreOthers ids [] = tt
remaining-AreOthers ids (tx ∷ txs) = elim (Bool-cases (contains tx.tx_id ids)) [
  | inl e ↦ rw e (remaining-AreOthers ids txs)
  | inr e ↦ rw e (e, remaining-AreOthers ids txs)
]

-- The errors of the validation.
abbrev IsRefusal : BlockError → Type 0
IsRefusal commit_failed = ⊥
IsRefusal e = Unit

abbrev AreRefusals : Option BlockError → Type 0
AreRefusals none = Unit
AreRefusals (some e) = IsRefusal e

any-AreRefusals :
    (a b c d f g h : Bool)
    → AreRefusals (
        refuse_if a bad_height (
          refuse_if b bad_prev_hash (
            refuse_if c bad_hash (
              refuse_if d insufficient_work (
                refuse_if f too_many_transactions
                  (refuse_if g block_too_large (refuse_if h below_floor none)))))))
any-AreRefusals true b c d f g h = tt
any-AreRefusals false true c d f g h = tt
any-AreRefusals false false true d f g h = tt
any-AreRefusals false false false true f g h = tt
any-AreRefusals false false false false true g h = tt
any-AreRefusals false false false false false true h = tt
any-AreRefusals false false false false false false true = tt
any-AreRefusals false false false false false false false = tt

validate_block-AreRefusals :
    (sum256 : List ℕ → List ℕ) {F : Type 0} ⦃js : Json F⦄ {D : Type 0} ⦃db : Bolt D⦄
    → (bc : Blockchain F D) (block : Block F) → AreRefusals (validate_block sum256 bc block)
unfolding validate_block
validate_block-AreRefusals sum256 ⦃js = js⦄ bc block =
    any-AreRefusals (not (block.header.height == get_block_count bc.store)) (is_unlinked bc block)
      (not (str_eq block.hash (compute_hash sum256 block.header)))
      (not (check_proof_of_work block.hash block.header.bits))
      (ltb bc.config.max_block_transactions (length block.transactions))
      (ltb bc.config.max_block_size (length (js.marshal_block block))) (is_below_floor bc block)

module _ {F : Type 0} ⦃fl : Float64 F⦄ ⦃js : Json F⦄ {D : Type 0} ⦃db : Bolt D⦄ where
  pub block_effects-IsTracked :
      (bc : Blockchain F D) (block : Block F)
      → IsTracked bc.balances bc.stakes (block_effects bc block)
  unfolding block_effects
  block_effects-IsTracked bc block =
      apply_transactions-IsTracked bc.balances bc.stakes block.header.height block.transactions _
        (record {
          balances_at = λ a. unfold lookup in refl;
          stakes_at = λ a. unfold lookup in refl;
          balances_map = tt;
          stakes_map = tt;
        })

  -- The state after a block has been connected.
  pub record IsConnected (bc : Blockchain F D) (block : Block F) (after : Blockchain F D)
      : Type 0 where
    pub committed : IsCommitted (block_commit bc block) bc.store after.store
    pub count : get_block_count after.store ≡ block.header.height + 1
    pub by_height :
        get_block_by_height block.header.height after.store ≡ some (js.marshal_block block)
    pub by_hash : get_block_by_hash block.hash after.store ≡ some (js.marshal_block block)
    pub last_block : after.last_block ≡ some block
    pub config : after.config ≡ bc.config
    pub stakes : after.stakes ≡ (block_effects bc block).stakes
    pub balances : after.balances ≡ (block_effects bc block).balances
    pub total_minted : after.total_minted ≡ fl.add bc.total_minted (block_effects bc block).minted
    pub mempool : AreOthers (collect_tx_ids block) after.mempool

  -- What a call of `AddBlock` has done, by how it ended.
  abbrev pub IsAdded :
      (List ℕ → List ℕ) → Blockchain F D → Block F → Option BlockError × Blockchain F D → Type 0
  IsAdded sum256 bc block (none, after) = IsNext sum256 bc block × IsConnected bc block after
  IsAdded sum256 bc block (some commit_failed, after) =
      IsNext sum256 bc block
      × (commit_block (block_commit bc block) bc.store ≡ none)
      × (after ≡ apply_effects bc (block_effects bc block))
  IsAdded sum256 bc block (some _, after) = (¬ IsNext sum256 bc block) × (after ≡ bc)

  module _ (laws : IsBolt D) where
    connect_block-IsConnected :
        (bc : Blockchain F D) (block : Block F) (store : D)
        → block.header.height < 2 ^ 63
        → commit_block (block_commit bc block) bc.store ≡ some store
        → IsConnected bc block (connect_block bc block).1
    unfolding connect_block apply_effects
    connect_block-IsConnected bc block store low e =
        let c = block_commit bc block in
        let t = block_effects-IsTracked bc block in
        let w : IsCommitted c bc.store store =
          commit_block-IsCommitted laws c bc.store store (unfold block_commit in t.balances_map)
            (unfold block_commit in t.stakes_map) e in
        let reads = committed_reads c bc.store store w (unfold block_commit in low) in
        rw (e, connect_block)
          (record {
            committed = w;
            count = unfold block_commit in reads.0;
            by_height = unfold block_commit in reads.1;
            by_hash = unfold block_commit in reads.2;
            last_block = refl;
            config = refl;
            stakes = refl;
            balances = refl;
            total_minted = refl;
            mempool = remaining-AreOthers (collect_tx_ids block) bc.mempool;
          })

    connect_block-fails :
        (bc : Blockchain F D) (block : Block F)
        → commit_block (block_commit bc block) bc.store ≡ none
        → connect_block bc block ≡ (some commit_failed, apply_effects bc (block_effects bc block))
    unfolding connect_block
    connect_block-fails bc block e = rw (e, connect_block) refl

    -- Under bbolt's laws and at a height that an int64 holds: a block that is not the next one is
    -- refused with an error of the validation and changes nothing. A block that is the next one is
    -- either connected, or its commit fails, and then the balances, the stakes and the amount
    -- minted have been changed in memory and nothing else has.
    pub add_block-IsAdded :
        (sum256 : List ℕ → List ℕ) (bc : Blockchain F D) (block : Block F)
        → block.header.height < 2 ^ 63
        → IsAdded sum256 bc block (add_block sum256 bc block)
    unfolding add_block
    add_block-IsAdded sum256 bc block low =
        let valid = validate_block_iff sum256 bc block in
        elim (Option-cases (validate_block sum256 bc block)) [
          | inr (e, refused) ↦
              rw (refused, add_block)
                (refused-IsAdded e (validate_block-IsRefusal e refused)
                  (λ next. cc (valid.1 next, refused)))
          | inl passed ↦
              rw (passed, add_block)
                (elim (Option-cases (commit_block (block_commit bc block) bc.store)) [
                  | inl failed ↦
                      rw (connect_block-fails bc block failed) (valid.0 passed, failed, refl)
                  | inr (store, done) ↦
                      accepted-IsAdded (connect_block bc block)
                        (unfold connect_block in rw (done, connect_block) refl) (valid.0 passed)
                        (connect_block-IsConnected bc block store low done)
                ])
        ]
      where
        validate_block-IsRefusal :
            (e : BlockError) → validate_block sum256 bc block ≡ some e → IsRefusal e
        validate_block-IsRefusal e refused =
            rw refused at (validate_block-AreRefusals sum256 bc block)

        accepted-IsAdded :
            (r : Option BlockError × Blockchain F D)
            → r.0 ≡ none
            → IsNext sum256 bc block
            → IsConnected bc block r.1
            → IsAdded sum256 bc block r
        accepted-IsAdded (none, after) e next connected = (next, connected)
        accepted-IsAdded (some b, after) e next connected = cc

        refused-IsAdded :
            (e : BlockError)
            → IsRefusal e
            → ¬ IsNext sum256 bc block
            → IsAdded sum256 bc block (some e, bc)
        refused-IsAdded bad_height r invalid = (invalid, refl)
        refused-IsAdded bad_prev_hash r invalid = (invalid, refl)
        refused-IsAdded bad_hash r invalid = (invalid, refl)
        refused-IsAdded insufficient_work r invalid = (invalid, refl)
        refused-IsAdded too_many_transactions r invalid = (invalid, refl)
        refused-IsAdded block_too_large r invalid = (invalid, refl)
        refused-IsAdded below_floor r invalid = (invalid, refl)
        refused-IsAdded commit_failed r invalid = absurd r

    -- Under bbolt's laws, a block that is the next one and holds a transaction with a blank
    -- identifier passes the validation, its commit fails, and the balances, stakes and the amount
    -- minted stay changed in memory.
    pub add_block_blank :
        (sum256 : List ℕ → List ℕ) (bc : Blockchain F D) (block : Block F)
        → IsNext sum256 bc block
        → contains [] (collect_tx_ids block) ≡ true
        → add_block sum256 bc block
          ≡ (some commit_failed, apply_effects bc (block_effects bc block))
    unfolding add_block
    add_block_blank sum256 bc block next blank =
        rw ((validate_block_iff sum256 bc block).1 next, add_block)
          (connect_block-fails bc block (
            commit_block_blank laws (block_commit bc block) bc.store
              (inr (unfold block_commit in blank))))
