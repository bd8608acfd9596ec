-- ===== src/Storage.antt =====
-- internal/storage/store.go: the database of blocks, balances, stakes, transactions and metadata.
-- bbolt and the JSON encoding are parameters (Database, Encoding). A read transaction sees one state of
-- the database, a state `D`; `db.Update` yields a new state, or an error and the old state.
-- `Close` is left out.
pub mod Database
pub mod Encoding
pub mod Write
pub mod Commit
pub mod Reads
pub mod Listing
pub mod Total
pub mod Range
pub mod Order
pub mod Ascending
pub mod Opening
use devinsidercoin.Prelude.{
  ℕ, zero, suc, ◌+◌, ◌-◌, ◌*◌, ◌%◌, ◌^◌, Bool, true, false, Option, none, some, List, [], ◌∷◌, map,
  foldl, ltb, leb, if◌then◌else◌, Str, codes,
}
use devinsidercoin.Prelude.Int.{ℤ, pos, negsuc, of_word64, to_word64, ltb_ℤ, leb_ℤ}
use devinsidercoin.Prelude.Float64.{Float64}
use devinsidercoin.Prelude.Dict.{Dict, insert}
use devinsidercoin.Bytes.{put_big, of_big}
use devinsidercoin.Storage.Database.{
  Bolt, Bucket, blocks, block_hashes, balances, stakes, tx_index, meta,
}
use devinsidercoin.Storage.Encoding.{Json}

abbrev pub best_height_key : Str
best_height_key = codes "best_height"

abbrev pub total_minted_key : Str
total_minted_key = codes "total_minted"

unfoldable pub height_key : ℕ → List ℕ
height_key h = put_big 8 h

-- `BigEndian.Uint64` of a value of eight bytes, which every stored height is.
unfoldable pub key_to_height : List ℕ → ℕ
key_to_height b = of_big b

-- All state changes of a block. A stake of `none` is to be deleted.
pub record BlockCommit (F : Type 0) : Type 0 where
  pub height : ℕ
  pub hash : Str
  pub block_json : List ℕ
  pub balances : Dict F
  pub stakes : Dict (Option (List ℕ))
  pub tx_ids : List Str
  pub total_minted : F

infixl 5 ◌>>=◌
abbrev pub ◌>>=◌ {ℓ κ} : {A : Type ℓ} {B : Type κ} → Option A → (A → Option B) → Option B
none >>= f = none
some a >>= f = f a

module _ {F : Type 0} ⦃fl : Float64 F⦄ ⦃js : Json F⦄ where
  unfoldable pub float_to_bytes : F → List ℕ
  float_to_bytes f = js.marshal_float f

  -- A text that does not decode leaves the zero value.
  unfoldable pub bytes_to_float : List ℕ → F
  bytes_to_float b = elim (js.unmarshal_float b) [ none ↦ fl.literal 0 0 | some f ↦ f ]

module _ {D : Type 0} ⦃db : Bolt D⦄ where
  -- -1 in an empty database.
  unfoldable pub get_best_height : D → ℤ
  get_best_height d = elim (db.get d meta best_height_key) [
    | none ↦ negsuc 0
    | some v ↦ of_word64 (key_to_height v)
  ]

  unfoldable pub get_block_count : D → ℕ
  get_block_count d =
      let h = get_best_height d in if ltb_ℤ h (pos 0) then 0 else (to_word64 h + 1) % 2 ^ 64

  unfoldable pub has_data : D → Bool
  has_data d = leb_ℤ (pos 0) (get_best_height d)

  -- `none` is the error "block not found".
  unfoldable pub get_block_by_height : ℕ → D → Option (List ℕ)
  get_block_by_height height d = db.get d blocks (height_key height)

  unfoldable pub get_block_by_hash : Str → D → Option (List ℕ)
  get_block_by_hash hash d = db.get d block_hashes hash >>= λ hk. db.get d blocks hk

  -- The rounds of the loop of `GetRecentBlocks` from height `h` on; missing blocks are skipped.
  unfoldable pub blocks_between : ℕ → ℕ → D → List (List ℕ)
  blocks_between zero h d = []
  blocks_between (suc rounds) h d =
      let rest = blocks_between rounds (h + 1) d in
      elim (get_block_by_height h d) [ none ↦ rest | some v ↦ v ∷ rest ]

  unfoldable pub get_recent_blocks : ℕ → D → List (List ℕ)
  unfolding blocks_between
  get_recent_blocks count d =
      let best = get_best_height d in
      if ltb_ℤ best (pos 0)
      then []
      else let top = to_word64 best in
        let start = if leb count top then top - count + 1 else 0 in
        blocks_between (top + 1 - start) start d

  -- `GetBlocksFrom`
  unfoldable pub get_blocks_from : ℕ → D → List (List ℕ)
  get_blocks_from start d = map (λ e. e.1) (db.seek d blocks (height_key start))

  unfoldable pub get_tx_block_height : Str → D → Option ℕ
  get_tx_block_height txid d = db.get d tx_index txid >>= λ v. some (key_to_height v)

  unfoldable pub get_all_stakes_raw : D → Dict (List ℕ)
  get_all_stakes_raw d = foldl (λ m e. insert e.0 e.1 m) [] (db.cursor d stakes)

  -- The writes of one loop of `CommitBlock`, in order. Writing `none` deletes the key.
  unfoldable pub write_all : Bucket → List (Str × Option (List ℕ)) → D → Option D
  write_all bucket [] d = some d
  write_all bucket ((k, none) ∷ ws) d = write_all bucket ws (db.delete d bucket k)
  write_all bucket ((k, some v) ∷ ws) d = elim (db.put d bucket k v) [
    | none ↦ none
    | some d' ↦ write_all bucket ws d'
  ]

  -- `db.Update`: the function's error, or a failure to write the file out, leaves the old state.
  unfoldable pub update : (D → Option D) → D → Option D
  update f d = f d >>= λ d'. if db.flush d' then some d' else none

module _ {F : Type 0} ⦃fl : Float64 F⦄ ⦃js : Json F⦄ {D : Type 0} ⦃db : Bolt D⦄ where
  unfoldable pub get_balance : Str → D → F
  unfolding bytes_to_float
  get_balance address d = elim (db.get d balances address) [
    | none ↦ fl.literal 0 0
    | some v ↦ bytes_to_float v
  ]

  unfoldable pub get_all_balances : D → Dict F
  get_all_balances d = foldl (λ m e. insert e.0 (bytes_to_float e.1) m) [] (db.cursor d balances)

  unfoldable pub get_total_minted : D → F
  unfolding bytes_to_float
  get_total_minted d = elim (db.get d meta total_minted_key) [
    | none ↦ fl.literal 0 0
    | some v ↦ bytes_to_float v
  ]

  -- The transaction of `CommitBlock`.
  unfoldable pub commit_writes : BlockCommit F → D → Option D
  commit_writes c d0 = do
    let hk = height_key c.height
    d1 ← db.put d0 blocks hk c.block_json
    d2 ← db.put d1 block_hashes c.hash hk
    d3 ← write_all balances (map (λ e. (e.0, some (float_to_bytes e.1))) c.balances) d2
    d4 ← write_all stakes c.stakes d3
    d5 ← write_all tx_index (map (λ id. (id, some hk)) c.tx_ids) d4
    d6 ← db.put d5 meta best_height_key hk
    db.put d6 meta total_minted_key (float_to_bytes c.total_minted)

  -- `none` is an error, after which the database is as before.
  unfoldable pub commit_block : BlockCommit F → D → Option D
  commit_block c = update (commit_writes c)
