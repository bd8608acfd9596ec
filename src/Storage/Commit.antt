-- ===== src/Storage/Commit.antt =====
-- What `CommitBlock` writes, and when it fails.
use devinsidercoin.Prelude.{
  ◌≡◌, refl, ◌∙◌, false, Option, none, some, arith, if◌then◌else◌, Str, str_eq, str_eq_refl, map,
}
use devinsidercoin.Prelude.Dict.{lookup, IsDistinct}
use devinsidercoin.Prelude.Float64.{Float64}
use devinsidercoin.Storage.Database.{
  Bolt, IsBolt, blocks, block_hashes, balances, stakes, tx_index, meta,
}
use devinsidercoin.Storage.Encoding.{Json}
use devinsidercoin.Storage.Write.{
  get-write_all, get-write_all_other, last_write-map, last_write_self, last_write-const, contains,
}
use devinsidercoin.Storage.{
  BlockCommit, ◌>>=◌, height_key, best_height_key, total_minted_key, float_to_bytes, write_all,
  update, commit_writes, commit_block,
}

pub >>=-eq-some {ℓ κ} :
    {A : Type ℓ} {B : Type κ} (m : Option A) (f : A → Option B) {b : B}
    → (m >>= f) ≡ some b
    → (a : A) × (m ≡ some a) × (f a ≡ some b)
>>=-eq-some none f e = cc
>>=-eq-some (some a) f e = (a, refl, e)

module _ {F : Type 0} ⦃fl : Float64 F⦄ ⦃js : Json F⦄ {D : Type 0} ⦃db : Bolt D⦄ where
  -- The states between the writes of a commit.
  pub record Steps (c : BlockCommit F) (d0 d7 : D) : Type 0 where
    pub d1 : D
    pub d2 : D
    pub d3 : D
    pub d4 : D
    pub d5 : D
    pub d6 : D
    pub put_block : db.put d0 blocks (height_key c.height) c.block_json ≡ some d1
    pub put_hash : db.put d1 block_hashes c.hash (height_key c.height) ≡ some d2
    pub put_balances :
        write_all balances (map (λ e. (e.0, some (float_to_bytes e.1))) c.balances) d2 ≡ some d3
    pub put_stakes : write_all stakes c.stakes d3 ≡ some d4
    pub put_ids :
        write_all tx_index (map (λ id. (id, some (height_key c.height))) c.tx_ids) d4 ≡ some d5
    pub put_best : db.put d5 meta best_height_key (height_key c.height) ≡ some d6
    pub put_minted : db.put d6 meta total_minted_key (float_to_bytes c.total_minted) ≡ some d7

  pub commit_writes-Steps :
      (c : BlockCommit F) (d d' : D) → commit_writes c d ≡ some d' → Steps c d d'
  unfolding commit_writes
  commit_writes-Steps c d d' e =
      let (d1, p1, e1) = >>=-eq-some _ _ e in
      let (d2, p2, e2) = >>=-eq-some _ _ e1 in
      let (d3, p3, e3) = >>=-eq-some _ _ e2 in
      let (d4, p4, e4) = >>=-eq-some _ _ e3 in
      let (d5, p5, e5) = >>=-eq-some _ _ e4 in
      let (d6, p6, p7) = >>=-eq-some _ _ e5 in
      record {
        d1 = d1;
        d2 = d2;
        d3 = d3;
        d4 = d4;
        d5 = d5;
        d6 = d6;
        put_block = p1;
        put_hash = p2;
        put_balances = p3;
        put_stakes = p4;
        put_ids = p5;
        put_best = p6;
        put_minted = p7;
      }

  -- What the database holds after a commit, in terms of what it held before.
  pub record IsCommitted (c : BlockCommit F) (d d' : D) : Type 0 where
    pub block_at :
        (k : Str)
        → db.get d' blocks k
          ≡ (if str_eq (height_key c.height) k then some c.block_json else db.get d blocks k)
    pub hash_at :
        (k : Str)
        → db.get d' block_hashes k
          ≡ (if str_eq c.hash k then some (height_key c.height) else db.get d block_hashes k)
    pub balance_at :
        (k : Str)
        → db.get d' balances k ≡ elim (lookup k c.balances) [
          | none ↦ db.get d balances k
          | some f ↦ some (float_to_bytes f)
        ]
    pub stake_at :
        (k : Str)
        → db.get d' stakes k ≡ elim (lookup k c.stakes) [ none ↦ db.get d stakes k | some s ↦ s ]
    pub tx_at :
        (k : Str)
        → db.get d' tx_index k
          ≡ (if contains k c.tx_ids then some (height_key c.height) else db.get d tx_index k)
    pub best_height : db.get d' meta best_height_key ≡ some (height_key c.height)
    pub total_minted : db.get d' meta total_minted_key ≡ some (float_to_bytes c.total_minted)

  module _ (laws : IsBolt D) where
    open laws use {get-put, get-delete, put_blank}

    Steps-IsCommitted :
        (c : BlockCommit F) (d d' : D)
        → IsDistinct c.balances
        → IsDistinct c.stakes
        → Steps c d d'
        → IsCommitted c d d'
    Steps-IsCommitted c d d' balances_map stakes_map s = record {
      block_at = λ k. ground (
        arith,
        get-put d s.d1 blocks blocks (height_key c.height) k _ s.put_block,
        get-put s.d1 s.d2 block_hashes blocks c.hash k _ s.put_hash,
        get-write_all_other laws balances blocks k _ s.d2 s.d3 (λ _. refl) s.put_balances,
        get-write_all_other laws stakes blocks k _ s.d3 s.d4 (λ _. refl) s.put_stakes,
        get-write_all_other laws tx_index blocks k _ s.d4 s.d5 (λ _. refl) s.put_ids,
        get-put s.d5 s.d6 meta blocks best_height_key k _ s.put_best,
        get-put s.d6 d' meta blocks total_minted_key k _ s.put_minted,
      );
      hash_at = λ k. ground (
        arith,
        get-put d s.d1 blocks block_hashes (height_key c.height) k _ s.put_block,
        get-put s.d1 s.d2 block_hashes block_hashes c.hash k _ s.put_hash,
        get-write_all_other laws balances block_hashes k _ s.d2 s.d3 (λ _. refl) s.put_balances,
        get-write_all_other laws stakes block_hashes k _ s.d3 s.d4 (λ _. refl) s.put_stakes,
        get-write_all_other laws tx_index block_hashes k _ s.d4 s.d5 (λ _. refl) s.put_ids,
        get-put s.d5 s.d6 meta block_hashes best_height_key k _ s.put_best,
        get-put s.d6 d' meta block_hashes total_minted_key k _ s.put_minted,
      );
      balance_at = λ k. ground (
        arith,
        get-put d s.d1 blocks balances (height_key c.height) k _ s.put_block,
        get-put s.d1 s.d2 block_hashes balances c.hash k _ s.put_hash,
        get-write_all laws balances k _ s.d2 s.d3 (λ _. refl) s.put_balances,
        get-write_all_other laws stakes balances k _ s.d3 s.d4 (λ _. refl) s.put_stakes,
        get-write_all_other laws tx_index balances k _ s.d4 s.d5 (λ _. refl) s.put_ids,
        get-put s.d5 s.d6 meta balances best_height_key k _ s.put_best,
        get-put s.d6 d' meta balances total_minted_key k _ s.put_minted,
        last_write-map (λ f. some (float_to_bytes f)) k c.balances balances_map,
      );
      stake_at = λ k. ground (
        arith,
        get-put d s.d1 blocks stakes (height_key c.height) k _ s.put_block,
        get-put s.d1 s.d2 block_hashes stakes c.hash k _ s.put_hash,
        get-write_all_other laws balances stakes k _ s.d2 s.d3 (λ _. refl) s.put_balances,
        get-write_all laws stakes k _ s.d3 s.d4 (λ _. refl) s.put_stakes,
        get-write_all_other laws tx_index stakes k _ s.d4 s.d5 (λ _. refl) s.put_ids,
        get-put s.d5 s.d6 meta stakes best_height_key k _ s.put_best,
        get-put s.d6 d' meta stakes total_minted_key k _ s.put_minted,
        last_write_self k c.stakes stakes_map,
      );
      tx_at = λ k. ground (
        arith,
        get-put d s.d1 blocks tx_index (height_key c.height) k _ s.put_block,
        get-put s.d1 s.d2 block_hashes tx_index c.hash k _ s.put_hash,
        get-write_all_other laws balances tx_index k _ s.d2 s.d3 (λ _. refl) s.put_balances,
        get-write_all_other laws stakes tx_index k _ s.d3 s.d4 (λ _. refl) s.put_stakes,
        get-write_all laws tx_index k _ s.d4 s.d5 (λ _. refl) s.put_ids,
        get-put s.d5 s.d6 meta tx_index best_height_key k _ s.put_best,
        get-put s.d6 d' meta tx_index total_minted_key k _ s.put_minted,
        last_write-const k (height_key c.height) c.tx_ids,
      );
      best_height = ground (
        arith,
        get-put d s.d1 blocks meta (height_key c.height) best_height_key _ s.put_block,
        get-put s.d1 s.d2 block_hashes meta c.hash best_height_key _ s.put_hash,
        get-write_all_other laws balances meta best_height_key _ s.d2 s.d3 (λ _. refl)
            s.put_balances,
        get-write_all_other laws stakes meta best_height_key _ s.d3 s.d4 (λ _. refl) s.put_stakes,
        get-write_all_other laws tx_index meta best_height_key _ s.d4 s.d5 (λ _. refl) s.put_ids,
        get-put s.d5 s.d6 meta meta best_height_key best_height_key _ s.put_best,
        get-put s.d6 d' meta meta total_minted_key best_height_key _ s.put_minted,
        str_eq_refl best_height_key,
        unequal,
      );
      total_minted =
          get-put s.d6 d' meta meta total_minted_key total_minted_key _ s.put_minted
          ∙ rw (str_eq_refl total_minted_key);
    }
      where
        unequal : str_eq total_minted_key best_height_key ≡ false
        unequal = unfold str_eq in refl

    -- Under bbolt's laws and with maps whose keys are distinct, a successful commit has written
    -- the block under its height and its hash, every changed balance and stake, the height of
    -- every transaction, the height and the amount minted, and no other block, hash, balance,
    -- stake or transaction.
    pub commit_block-IsCommitted :
        (c : BlockCommit F) (d d' : D)
        → IsDistinct c.balances
        → IsDistinct c.stakes
        → commit_block c d ≡ some d'
        → IsCommitted c d d'
    unfolding commit_block update
    commit_block-IsCommitted c d d' balances_map stakes_map e =
        let (d1, written, flushed) = >>=-eq-some _ _ e in
        Steps-IsCommitted c d d' balances_map stakes_map
          (commit_writes-Steps c d d' (flushed_lem d1 written flushed))
      where
        flushed_lem :
            (d1 : D)
            → commit_writes c d ≡ some d1
            → (if db.flush d1 then some d1 else none) ≡ some d'
            → commit_writes c d ≡ some d'
        flushed_lem d1 written flushed = ground arith
