-- ===== src/Node/CatchUp.antt =====
-- internal/network/node.go: what a node makes of the blocks that a peer sends it one after the other.
use devinsidercoin.Prelude.{
  ℕ, zero, suc, ◌+◌, ◌-◌, ◌≤◌, ◌<◌, ◌≡◌, refl, sym, ap, ◌∙◌, true, false, Option, none, some, List,
  [], ◌∷◌, map, arith, leb, Str,
}
use devinsidercoin.Prelude.Float64.{Float64}
use devinsidercoin.Block.{Block}
use devinsidercoin.Storage.Database.{Bolt, IsBolt}
use devinsidercoin.Storage.Encoding.{Json, IsJson}
use devinsidercoin.Storage.{get_block_count, get_block_by_height, blocks_between}
use devinsidercoin.Storage.Commit.{>>=-eq-some}
use devinsidercoin.Storage.Total.{IsStorable}
use devinsidercoin.Storage.Ascending.{get_blocks_from-blocks_between}
use devinsidercoin.Chain.{Blockchain, BlockError, load_block, block_commit, get_best, add_block}
use devinsidercoin.Chain.Queries.{decode_all, get_blocks}
use devinsidercoin.Chain.Linked.{IsLinked}
use devinsidercoin.Chain.Behind.{IsBehind, add_block-IsBehind}
use devinsidercoin.Node.{
  Node, Wire, Message, block_message, relay_added, handle_block, handle_by_type, handle_message,
}
use devinsidercoin.Node.Relay.{get_best-count}
use devinsidercoin.Node.Session.{handle_messages}

module _ {F : Type 0} ⦃js : Json F⦄ {D : Type 0} ⦃db : Bolt D⦄ where
  -- The two chains have the same blocks.
  pub record IsSynced (bc other : Blockchain F D) : Type 0 where
    pub count : get_block_count bc.store ≡ get_block_count other.store
    pub same_blocks :
        (h : ℕ)
        → h < get_block_count other.store
        → load_block {F = F} h bc.store ≡ load_block h other.store
    pub last_block : bc.last_block ≡ other.last_block

  loaded-stored :
      (h : ℕ) (d : D) (b : Block F)
      → load_block h d ≡ some b
      → (raw : List ℕ) × (get_block_by_height h d ≡ some raw) × (js.unmarshal_block raw ≡ some b)
  unfolding load_block
  loaded-stored h d b e = >>=-eq-some (get_block_by_height h d) _ e

  pub decode_all-cons :
      (n h : ℕ) (d : D) (b : Block F)
      → load_block h d ≡ some b
      → decode_all (blocks_between (suc n) h d) ≡ b ∷ decode_all (blocks_between n (h + 1) d)
  unfolding decode_all blocks_between load_block
  decode_all-cons n h d b e =
      let (raw, stored, decoded) = loaded-stored h d b e in
      rw (stored, blocks_between) (rw (decoded, decode_all) refl)

  -- The blocks that a chain of blocks lists from a height on, as they are read one by one.
  pub get_blocks-blocks_between :
      IsBolt D
      → (sum256 : List ℕ → List ℕ) (bc : Blockchain F D) (start : ℕ) → IsLinked sum256 bc
      → start ≤ get_block_count bc.store
      → get_blocks {F = F} start bc
        ≡ decode_all (blocks_between (get_block_count bc.store - start) start bc.store)
  unfolding get_blocks load_block
  get_blocks-blocks_between laws sum256 bc start linked le = ap decode_all (
      get_blocks_from-blocks_between laws start (get_block_count bc.store) bc.store le
        linked.bounded linked.exact
        (λ h lt.
          let sound = linked.stored_at h lt in
          let (raw, stored, decoded) =
            >>=-eq-some (get_block_by_height h bc.store) _ sound.loaded in
          (raw, stored)))

module _ (sum256 : List ℕ → List ℕ) {F : Type 0} ⦃fl : Float64 F⦄ ⦃js : Json F⦄ {D : Type 0}
    ⦃db : Bolt D⦄ where
  -- The commit of each block, on the chain with the blocks before it, is within bbolt's limits.
  abbrev pub AreStorable : Blockchain F D → List (Block F) → Type 0
  AreStorable bc [] = Unit
  AreStorable bc (b ∷ bs) =
      IsStorable (block_commit bc b) × AreStorable (add_block sum256 bc b).1 bs

  pub behind-IsSynced :
      (bc other : Blockchain F D)
      → IsBehind sum256 bc other
      → IsLinked sum256 other
      → get_block_count bc.store ≡ get_block_count other.store
      → IsSynced bc other
  behind-IsSynced bc other behind linked same =
      let h = get_block_count bc.store - 1 in
      let at : suc h ≡ get_block_count bc.store = omega (arith, behind.started) in
      record {
        count = same;
        same_blocks = λ k lt. behind.same_blocks k (rw same lt);
        last_block =
            sym (behind.linked.last h at)
            ∙ behind.same_blocks h (omega arith)
            ∙ linked.last h (at ∙ same);
      }

  module _ ⦃w : Wire F⦄ where
    relay_added-chain :
        (n : Node F D) (address : Str) (b : Block F) (r : Option BlockError × Blockchain F D)
        → (relay_added sum256 n address b r).0 ≡ record n { chain = r.1 }
    unfolding relay_added
    relay_added-chain n address b (none, chain) = refl
    relay_added-chain n address b (some e, chain) = refl

    handle_messages-cons :
        (n after : Node F D) (address : Str) (m : Message) (msgs : List Message)
        → (handle_message sum256 n address m).0 ≡ after
        → (handle_messages sum256 n address (m ∷ msgs)).0
          ≡ (handle_messages sum256 after address msgs).0
    unfolding handle_messages
    handle_messages-cons n after address m msgs e =
        ap (λ (x : Node F D). (handle_messages sum256 x address msgs).0) e

    handle_message-block :
        (n : Node F D) (address : Str) (b : Block F)
        → js.fill_block (js.marshal_block b) ≡ b
        → leb b.header.height (get_best n.chain) ≡ false
        → (handle_message sum256 n address (block_message b)).0
          ≡ record n { chain = (add_block sum256 n.chain b).1 }
    unfolding handle_message handle_by_type handle_block
    handle_message-block n address b filled high =
        rw filled
          (rw (high, handle_block) (relay_added-chain n address b (add_block sum256 n.chain b)))

  module _ ⦃w : Wire F⦄ (laws : IsBolt D) (json : IsJson F) where
    -- The blocks of the other chain that are still missing, handled one after the other.
    pub handle_messages-IsSynced :
        (k low : ℕ) (n : Node F D) (other : Blockchain F D) (address : Str)
        → IsLinked sum256 other
        → ((after : D) → db.flush after ≡ true)
        → get_block_count n.chain.store ≡ low
        → low + k ≡ get_block_count other.store
        → IsBehind sum256 n.chain other
        → AreStorable n.chain (decode_all (blocks_between k low other.store))
        → IsSynced
            (handle_messages sum256 n address
              (map block_message (decode_all {F = F} (blocks_between k low other.store)))).0.chain
            other
    handle_messages-IsSynced zero low n other address linked flushed at all behind fits =
        unfold blocks_between decode_all handle_messages in
        behind-IsSynced n.chain other behind linked (omega arith)
    handle_messages-IsSynced (suc k) low n other address linked flushed at all behind fits =
        let sound = linked.stored_at low (omega arith) in
        let b = sound.block in
        let list = decode_all-cons k low other.store b sound.loaded in
        let (raw, stored, decoded) = loaded-stored low other.store b sound.loaded in
        let survives = json.decoded raw b decoded in
        let fits' = rw list at fits in
        let (count, after) =
          add_block-IsBehind sum256 laws n.chain other b behind linked (omega arith)
            (ap (λ x. load_block {F = F} x other.store) at ∙ sound.loaded) survives fits'.0
            flushed in
        let high : leb b.header.height (get_best n.chain) ≡ false =
          ground (arith, sound.height, get_best-count n.chain behind.started) in
        let step = handle_message-block n address b (json.filled_as _ b survives) high in
        let synced =
          handle_messages-IsSynced k (low + 1) (record n { chain = (add_block sum256 n.chain b).1 })
            other address linked flushed (count ∙ ap (λ x. x + 1) at) (omega arith) after fits'.1 in
        rw list (
          rw
            (handle_messages-cons n _ address (block_message b)
              (map block_message (decode_all (blocks_between k (low + 1) other.store))) step)
            synced)
