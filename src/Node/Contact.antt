-- ===== src/Node/Contact.antt =====
-- internal/network/node.go: what a node has after it has connected to one with more blocks.
use devinsidercoin.Prelude.{
  ℕ, ◌+◌, ◌-◌, ◌%◌, ◌≤◌, ◌<◌, ◌^◌, ◌≡◌, refl, ap, ◌∙◌, true, false, inl, inr, Bool-cases, List, [],
  ◌∷◌, map, All, arith, ltb, if◌then◌else◌, Str,
}
use devinsidercoin.Prelude.Float64.{Float64}
use devinsidercoin.Block.{Block}
use devinsidercoin.Storage.Database.{Bolt, IsBolt}
use devinsidercoin.Storage.Encoding.{Json, IsJson}
use devinsidercoin.Storage.{get_block_count}
use devinsidercoin.Chain.{get_best}
use devinsidercoin.Chain.Queries.{get_blocks}
use devinsidercoin.Chain.Linked.{IsLinked}
use devinsidercoin.Chain.Behind.{IsBehind}
use devinsidercoin.Node.{Node, Wire, Sent, block_message}
use devinsidercoin.Node.Relay.{get_best-count}
use devinsidercoin.Node.Session.{IsWire, Scan, IsScan, messages_to, handle_messages}
use devinsidercoin.Node.Stream.{IsDeliverable}
use devinsidercoin.Node.CatchUp.{
  IsSynced, AreStorable, behind-IsSynced, get_blocks-blocks_between, handle_messages-IsSynced,
}
use devinsidercoin.Node.Answers.{
  get_blocks_message, IsBrief, messages_to_self, messages_to-blocks, after_get_blocks,
}
use devinsidercoin.Node.Handshake.{
  round, contact, greeted, AreBrief, round-eq, first_round, second_round,
}

module _ (sum256 : List ℕ → List ℕ) {F : Type 0} ⦃fl : Float64 F⦄ ⦃js : Json F⦄ ⦃w : Wire F⦄
    {D : Type 0} ⦃db : Bolt D⦄ where
  module _ (scan : Scan) where
    module _ (wire : IsWire F) (scans : IsScan scan) (n other : Node F D) (a b : Str)
        (brief : AreBrief sum256 scan n other) (lt : get_best n.chain < 2 ^ 64)
        (other_lt : get_best other.chain < 2 ^ 64) where
      blocks-AreDeliverable :
          (bs : List (Block F))
          → All (λ x. IsBrief w (block_message x)) bs
          → All (IsDeliverable wire) (map block_message bs)
      blocks-AreDeliverable [] short = tt
      blocks-AreDeliverable (x ∷ bs) short =
          (record { made = wire.block_made x; fits = short.0 }, blocks-AreDeliverable bs short.1)

      -- The first side after the rounds, if the other one has more blocks.
      contact_more :
          ltb (get_best n.chain) (get_best other.chain) ≡ true
          → (get_best n.chain + 1) % 2 ^ 64 ≡ get_block_count n.chain.store
          → get_block_count n.chain.store < 2 ^ 64
          → (contact sum256 scan n other a b).0
            ≡ handle_messages sum256
                (greeted sum256 scan n b (get_best other.chain))
                b
                (map block_message (get_blocks {F = F} (get_block_count n.chain.store) other.chain))
      unfolding contact messages_to
      contact_more more start low_lt =
          let low = get_block_count n.chain.store in
          let requests : Sent = (b, get_blocks_message w low) ∷ [] in
          let e : (if ltb (get_best n.chain) (get_best other.chain)
                then (b, get_blocks_message w ((get_best n.chain + 1) % 2 ^ 64)) ∷ []
                else [])
              ≡ requests =
            rw (more, start) refl in
          let bs = get_blocks {F = F} low other.chain in
          let r1 =
            first_round sum256 scan wire scans n other a b brief lt other_lt requests e
              (ground arith) in
          let r2 =
            second_round sum256 scan wire scans n other a b brief lt other_lt requests
              (get_blocks_message w low ∷ []) (messages_to_self b (get_blocks_message w low) [])
              (record { made = wire.get_blocks_made _; fits = brief.get_blocks_brief }, tt)
            ∙ (λ i. (
              (greeted sum256 scan n b (get_best other.chain), []),
              after_get_blocks sum256 wire (greeted sum256 scan other a (get_best n.chain)) a low
                  low_lt i,
            )) in
          let r3 =
            round-eq sum256 scan wire scans a b (greeted sum256 scan n b (get_best other.chain), [])
              (greeted sum256 scan other a (get_best n.chain), map (λ x. (a, block_message x)) bs)
              (map block_message bs) [] (messages_to-blocks a bs) refl
              (blocks-AreDeliverable bs brief.blocks_brief) tt in
          ap (λ s. s.0) (ap (round sum256 scan a b) (ap (round sum256 scan a b) r1 ∙ r2) ∙ r3)

      -- The first side after the rounds, if the other one has no more blocks.
      contact_no_more :
          ltb (get_best n.chain) (get_best other.chain) ≡ false
          → get_best n.chain ≤ get_best other.chain
          → (contact sum256 scan n other a b).0
            ≡ (greeted sum256 scan n b (get_best other.chain), [])
      unfolding contact messages_to handle_messages
      contact_no_more no_more le =
          let r1 =
            first_round sum256 scan wire scans n other a b brief lt other_lt [] (rw no_more refl)
              le in
          let r2 =
            second_round sum256 scan wire scans n other a b brief lt other_lt [] [] refl tt in
          let r3 =
            round-eq sum256 scan wire scans a b (greeted sum256 scan n b (get_best other.chain), [])
              (greeted sum256 scan other a (get_best n.chain), []) [] [] refl refl tt tt in
          ap (λ s. s.0) (ap (round sum256 scan a b) (ap (round sum256 scan a b) r1 ∙ r2) ∙ r3)

    -- Under bbolt's laws, and if messages and blocks survive their encodings: let the blocks of a node be
    -- the first ones of those of another node with the same configuration, whose blocks form a chain.
    -- Three rounds after they connect to each other, in which each side handles all that the other has
    -- just sent, the node has the other's blocks at every height, and its last block. The lines of the
    -- messages are to fit the scanner's buffer, the commits of the missing blocks are to be within
    -- bbolt's limits, and the file is to be written.
    pub contact-IsSynced :
        IsWire F
        → IsScan scan
        → IsBolt D
        → IsJson F
        → (n other : Node F D) (a b : Str) → IsBehind sum256 n.chain other.chain
        → IsLinked sum256 other.chain
        → AreBrief sum256 scan n other
        → AreStorable sum256 n.chain (get_blocks (get_block_count n.chain.store) other.chain)
        → ((after : D) → db.flush after ≡ true)
        → IsSynced (contact sum256 scan n other a b).0.0.chain other.chain
    contact-IsSynced wire scans laws json n other a b behind linked brief fits flushed =
        let low = get_block_count n.chain.store in
        let best = get_best-count n.chain behind.started in
        let other_best =
          get_best-count other.chain (omega (arith, behind.started, behind.shorter)) in
        let lt : get_best n.chain < 2 ^ 64 = omega (arith, best, behind.linked.bounded) in
        let other_lt : get_best other.chain < 2 ^ 64 = omega (arith, other_best, linked.bounded) in
        elim (Bool-cases (ltb (get_best n.chain) (get_best other.chain))) [
          | inl more ↦
              let listed =
                get_blocks-blocks_between laws sum256 other.chain low linked behind.shorter in
              let there =
                contact_more wire scans n other a b brief lt other_lt more
                  (omega (arith, best, behind.linked.bounded))
                  (omega (arith, behind.linked.bounded)) in
              rw (there, listed)
                (handle_messages-IsSynced sum256 laws json (get_block_count other.chain.store - low)
                  low (greeted sum256 scan n b (get_best other.chain)) other.chain b linked flushed
                  refl (omega (arith, behind.shorter)) behind (rw listed at fits))
          | inr no_more ↦
              let same : low ≡ get_block_count other.chain.store =
                ground (arith, best, other_best, behind.shorter) in
              rw (contact_no_more wire scans n other a b brief lt other_lt no_more (ground arith))
                (behind-IsSynced sum256 n.chain other.chain behind linked same)
        ]
