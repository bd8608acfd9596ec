-- ===== src/Chain/Start/Fresh.antt =====
-- A start on an empty database.
use devinsidercoin.Prelude.{
  ℕ, ◌≡◌, refl, sym, ap, ◌∙◌, true, false, Option, none, some, List, arith, Str, inl, inr,
  Bool-cases, str_eq, str_eq_iff,
}
use devinsidercoin.Prelude.Int.{ℤ}
use devinsidercoin.Prelude.Dict.{lookup}
use devinsidercoin.Prelude.Float64.{Float64}
use devinsidercoin.Config.{NetworkConfig}
use devinsidercoin.Block.{Block}
use devinsidercoin.Genesis.{create_genesis_block, IsGenesis, create_genesis_block-IsGenesis}
use devinsidercoin.Storage.Database.{Bolt, IsBolt, Bucket, balances, stakes, blocks}
use devinsidercoin.Storage.Encoding.{Json}
use devinsidercoin.Storage.Commit.{IsCommitted, commit_block-IsCommitted}
use devinsidercoin.Storage.Reads.{committed_reads}
use devinsidercoin.Storage.{height_key, get_block_count, has_data, get_best_height}
use devinsidercoin.Storage.Total.{IsStorable, commit_block_total}
use devinsidercoin.Chain.Agree.{Agrees}
use devinsidercoin.Chain.Linked.{IsLinked}
use devinsidercoin.Chain.Start.{
  opened, genesis_commit, write_genesis, migrate_from_json, new_blockchain,
}
use devinsidercoin.Chain.{Blockchain, load_block}

-- Nothing is in the database.
pub record IsBlank {D : Type 0} ⦃db : Bolt D⦄ (d : D) : Type 0 where
  pub blank : (b : Bucket) (k : List ℕ) → db.get d b k ≡ none

pub blank-has_data : {D : Type 0} ⦃db : Bolt D⦄ (d : D) → IsBlank d → has_data d ≡ false
unfolding has_data get_best_height
blank-has_data d e = rw (e.blank _ _, get_best_height) refl

module _ (sum256 : List ℕ → List ℕ) {F : Type 0} ⦃fl : Float64 F⦄ ⦃js : Json F⦄ {D : Type 0}
    ⦃db : Bolt D⦄ where
  genesis-IsLinked :
      (cfg : NetworkConfig F) (genesis : Block F) (d store : D)
      → IsBlank d
      → IsGenesis sum256 cfg genesis
      → js.unmarshal_block (js.marshal_block genesis) ≡ some genesis
      → IsCommitted (genesis_commit (opened cfg d) genesis) d store
      → IsLinked sum256 (record (opened cfg d) { store = store; last_block = some genesis })
  unfolding genesis_commit
  genesis-IsLinked cfg genesis d store blank g decoded w =
      let reads = committed_reads _ d store w (omega arith) in
      let top : load_block {F = F} 0 store ≡ some genesis =
        unfold load_block in rw (reads.1) decoded in
      record {
        bounded = rw reads.0 (omega arith);
        stored_at = λ h lt.
            let zero_h : h ≡ 0 = omega (arith, lt, reads.0) in
            record {
              block = genesis;
              loaded = ap (λ k. load_block {F = F} k store) zero_h ∙ top;
              height = g.height ∙ sym zero_h;
              hash = g.hash;
              work = λ later. absurd (omega (arith, later, zero_h));
              within = λ later. absurd (omega (arith, later, zero_h));
            };
        exact = λ k v e. elim (Bool-cases (str_eq (height_key 0) k)) [
          | inl hit ↦ (0, omega (arith, reads.0), sym ((str_eq_iff _ k).0 hit))
          | inr miss ↦ absurd (cc (e, rw miss at (w.block_at k), blank.blank blocks k))
        ];
        links = λ h b b' lt e1 e2. absurd (omega (arith, lt, reads.0));
        last = λ h e.
            let zero_h : h ≡ 0 = omega (arith, e, reads.0) in
            ap (λ k. load_block {F = F} k store) zero_h ∙ top;
      }

  genesis-Agrees :
      (cfg : NetworkConfig F) (genesis : Block F) (d store : D)
      → IsBlank d
      → IsCommitted (genesis_commit (opened cfg d) genesis) d store
      → Agrees (record (opened cfg d) { store = store; last_block = some genesis })
  unfolding genesis_commit lookup
  genesis-Agrees cfg genesis d store e w = record {
    balance_at = λ a. w.balance_at a ∙ e.blank balances a;
    stake_at = λ a. w.stake_at a ∙ e.blank stakes a;
    minted = w.total_minted;
  }

  -- On an empty database that takes the genesis block and with no older file, the node starts, its
  -- blocks form a chain, and the database agrees with the memory. The genesis block is asked to be
  -- within bbolt's limits and to survive its encoding.
  pub new_blockchain-fresh :
      IsBolt D
      → (parse_time : Str → Option ℤ) (cfg : NetworkConfig F) (d : D) (now : ℤ) → IsBlank d
      → ((after : D) → db.flush after ≡ true)
      → ((genesis : Block F)
          → create_genesis_block sum256 parse_time cfg now ≡ some genesis
          → IsStorable (genesis_commit (opened cfg d) genesis)
            × (js.unmarshal_block (js.marshal_block genesis) ≡ some genesis))
      → (bc : Blockchain F D) × (new_blockchain sum256 parse_time cfg d none now ≡ some bc)
        × (get_block_count bc.store ≡ 1)
        × IsLinked sum256 bc
        × Agrees bc
  unfolding new_blockchain write_genesis migrate_from_json
  new_blockchain-fresh laws parse_time cfg d now e flushed fits =
      let (genesis, made, g) = create_genesis_block-IsGenesis sum256 parse_time cfg now in
      let (fit, decoded) = fits genesis made in
      let (store, done) =
        commit_block_total laws (genesis_commit (opened cfg d) genesis) d fit flushed in
      let w =
        commit_block-IsCommitted laws (genesis_commit (opened cfg d) genesis) d store
          (unfold genesis_commit in tt) (unfold genesis_commit in tt) done in
      (
        record (opened cfg d) { store = store; last_block = some genesis },
        rw (blank-has_data d e, new_blockchain) (rw (made, done, write_genesis) refl),
        unfold genesis_commit in
            (committed_reads (genesis_commit (opened cfg d) genesis) d store w (omega arith)).0,
        genesis-IsLinked cfg genesis d store e g decoded w,
        genesis-Agrees cfg genesis d store e w,
      )
