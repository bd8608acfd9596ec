-- ===== src/Node/Sync.antt =====
-- internal/network/node.go: how a peer that is behind gets the blocks that it lacks.
use mathlib.Core.List.{Memᴰ}
use mathlib.Core.List.Memᴰ
use devinsidercoin.Prelude.{
  ℕ, ◌≤◌, ◌<◌, ◌^◌, ◌≡◌, refl, ◌∙◌, some, inl, inr, Option-cases, Bool-cases, List, [], ◌∷◌, map,
  arith, Str, str_eq,
}
use devinsidercoin.Prelude.Dict.{Dict, lookup}
use devinsidercoin.Block.{Block}
use devinsidercoin.Storage.Database.{Bolt, IsBolt, blocks}
use devinsidercoin.Storage.Encoding.{Json}
use devinsidercoin.Storage.{height_key, get_block_by_height, get_blocks_from}
use devinsidercoin.Storage.Range.{lookup-get_blocks_from}
use devinsidercoin.Chain.{load_block}
use devinsidercoin.Chain.Queries.{decode_all, get_blocks}
use devinsidercoin.Node.{Node, block_message, send_blocks}

mem-lookup :
    (k : Str) (v : List ℕ) (es : Dict (List ℕ)) → lookup k es ≡ some v → Memᴰ v (map (λ e. e.1) es)
unfolding lookup
mem-lookup k v [] e = absurd (cc e)
mem-lookup k v ((j, w) ∷ es) e = elim (Bool-cases (str_eq j k)) [
  | inl same ↦ Memᴰ.head (cc (rw same at e))
  | inr apart ↦ Memᴰ.tail (mem-lookup k v es (rw apart at e))
]

module _ {F : Type 0} ⦃js : Json F⦄ where
  mem-decode_all :
      (raw : List ℕ) (raws : List (List ℕ)) (b : Block F)
      → js.unmarshal_block raw ≡ some b
      → Memᴰ raw raws
      → Memᴰ b (decode_all raws)
  unfolding decode_all
  mem-decode_all raw [] b e m = elim m [ ]
  mem-decode_all raw (r ∷ raws) b e (Memᴰ.head same) =
      let here : js.unmarshal_block r ≡ some b = rw same at e in
      rw (here, decode_all) (Memᴰ.head refl)
  mem-decode_all raw (r ∷ raws) b e (Memᴰ.tail m) =
      let rest = mem-decode_all raw raws b e m in
      elim (Option-cases (js.unmarshal_block r)) [
        | inl failed ↦ rw (failed, decode_all) rest
        | inr (x, done) ↦ rw (done, decode_all) (Memᴰ.tail rest)
      ]

module _ {F : Type 0} ⦃js : Json F⦄ {D : Type 0} ⦃db : Bolt D⦄ (laws : IsBolt D) where
  -- Under bbolt's laws, the answer to a request from a height on has every block that can be read at
  -- that height or above, at heights that a uint64 holds.
  pub send_blocks-mem :
      (n : Node F D) (address : Str) (start h : ℕ) (b : Block F)
      → start ≤ h
      → h < 2 ^ 64
      → load_block h n.chain.store ≡ some b
      → Memᴰ (address, block_message b) (send_blocks n address start)
  unfolding send_blocks get_blocks load_block get_blocks_from get_block_by_height
  send_blocks-mem n address start h b above h_lt loaded =
      elim (Option-cases (db.get n.chain.store blocks (height_key h))) [
        | inl missing ↦ absurd (cc (rw missing at loaded))
        | inr (raw, stored) ↦
            let decoded : js.unmarshal_block raw ≡ some b = rw stored at loaded in
            let listed =
              lookup-get_blocks_from laws n.chain.store h start h_lt (omega arith)
              ∙ rw (stored) (ground arith) in
            Memᴰ.map (λ x. (address, block_message x))
              (mem-decode_all raw _ b decoded (mem-lookup (height_key h) raw _ listed))
      ]
