-- ===== src/Storage/Opening.antt =====
-- internal/storage/store.go, `NewStore`. Opening the file and creating a bucket are bbolt's; making the
-- directory, and the texts of the errors, are left out.
use devinsidercoin.Prelude.{ℕ, ◌≡◌, refl, ◌∙◌, true, Option, some, List, [], ◌∷◌, Str}
use devinsidercoin.Storage.Database.{
  Bolt, Bucket, blocks, block_hashes, balances, stakes, tx_index, meta,
}
use devinsidercoin.Storage.{◌>>=◌, update}

-- `none` is an error.
pub record Opener (D : Type 0) : Type 0 where
  pub open_file : Str → Option D
  pub create_bucket_if_not_exists : D → Bucket → Option D

abbrev pub all_buckets : List Bucket
all_buckets = blocks ∷ block_hashes ∷ balances ∷ stakes ∷ tx_index ∷ meta ∷ []

-- Creating a bucket works for names that are not blank, and changes no key of any bucket.
pub record IsOpener (D : Type 0) ⦃db : Bolt D⦄ ⦃op : Opener D⦄ : Type 0 where
  pub created : (d : D) (b : Bucket) → (d' : D) × (op.create_bucket_if_not_exists d b ≡ some d')
  pub kept :
      (d d' : D) (b c : Bucket) (k : List ℕ)
      → op.create_bucket_if_not_exists d b ≡ some d'
      → db.get d' c k ≡ db.get d c k

module _ {D : Type 0} ⦃db : Bolt D⦄ ⦃op : Opener D⦄ where
  -- The function that `NewStore` hands to `db.Update`.
  unfoldable pub create_buckets : List Bucket → D → Option D
  create_buckets [] d = some d
  create_buckets (b ∷ bs) d = op.create_bucket_if_not_exists d b >>= λ d'. create_buckets bs d'

  -- `NewStore` for the path of the file; on an error the file is closed again.
  unfoldable pub new_store : Str → Option D
  unfolding create_buckets
  new_store path = op.open_file path >>= λ d. update (create_buckets all_buckets) d

  create_buckets_total :
      IsOpener D
      → (bs : List Bucket) (d : D)
      → (d' : D) × (create_buckets bs d ≡ some d')
        × ((c : Bucket) (k : List ℕ) → db.get d' c k ≡ db.get d c k)
  unfolding create_buckets
  create_buckets_total laws [] d = (d, refl, λ c k. refl)
  create_buckets_total laws (b ∷ bs) d =
      let (d1, made) = laws.created d b in
      let (d2, rest, same) = create_buckets_total laws bs d1 in
      (d2, rw made rest, λ c k. same c k ∙ laws.kept d d1 b c k made)

  -- If the file can be opened and written, there is a store, with the keys of the file and no others.
  pub new_store_total :
      IsOpener D
      → ((after : D) → db.flush after ≡ true)
      → (path : Str) (d : D) → op.open_file path ≡ some d
      → (d' : D) × (new_store path ≡ some d')
        × ((c : Bucket) (k : List ℕ) → db.get d' c k ≡ db.get d c k)
  unfolding new_store update
  new_store_total laws flushed path d opened =
      let (d', made, same) = create_buckets_total laws all_buckets d in
      (d', rw opened (rw made (rw (flushed d') refl)), same)
