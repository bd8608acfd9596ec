-- ===== src/Node/Handshake.antt =====
-- internal/network/node.go: two nodes over a new connection, from `handlePeer` on both sides.
use devinsidercoin.Prelude.{
  ℕ, ◌+◌, ◌%◌, ◌≤◌, ◌<◌, ◌^◌, ◌≡◌, ap, ◌∙◌, Bool, false, List, [], ◌∷◌, All, arith, ltb,
  if◌then◌else◌, Str,
}
use devinsidercoin.Prelude.Dict.{insert}
use devinsidercoin.Prelude.Float64.{Float64}
use devinsidercoin.Storage.Database.{Bolt}
use devinsidercoin.Storage.Encoding.{Json}
use devinsidercoin.Storage.{get_block_count}
use devinsidercoin.Chain.{get_best}
use devinsidercoin.Chain.Queries.{get_blocks}
use devinsidercoin.Node.{
  Node, Message, VersionPayload, Wire, Sent, block_message, verack_message, version_message,
  connect, set_height,
}
use devinsidercoin.Node.Session.{
  max_line, IsWire, Scan, IsScan, stream, messages_to, receive_all, handle_messages,
}
use devinsidercoin.Node.Stream.{IsDeliverable, receive_all-stream}
use devinsidercoin.Node.Answers.{
  get_blocks_message, IsBrief, messages_to_self, after_version, after_verack,
}

module _ (sum256 : List ℕ → List ℕ) {F : Type 0} ⦃fl : Float64 F⦄ ⦃js : Json F⦄ ⦃w : Wire F⦄
    {D : Type 0} ⦃db : Bolt D⦄ where
  module _ (scan : Scan) where
    -- One side reads what the other side's messages are on the connection.
    unfoldable pub deliver : Node F D → Str → List Message → Node F D × Sent
    deliver n address msgs =
        receive_all sum256 n address (scan max_line (stream w.marshal_message msgs))

    -- Each side handles all that the other has just sent to it; the first side has the address `a`, the
    -- second `b`.
    unfoldable pub round :
        Str → Str → (Node F D × Sent) × (Node F D × Sent) → (Node F D × Sent) × (Node F D × Sent)
    unfolding deliver
    round a b (x, y) = (deliver x.0 b (messages_to a y.1), deliver y.0 a (messages_to b x.1))

    -- The two sides after three rounds of a new connection.
    unfoldable pub contact : Node F D → Node F D → Str → Str → (Node F D × Sent) × (Node F D × Sent)
    unfolding round
    contact n other a b = round a b (round a b (round a b (connect n b, connect other a)))

    -- A node after the other's version message.
    abbrev pub greeted : Node F D → Str → ℕ → Node F D
    greeted m address height =
        let joined = insert address (record { address = address; height = 0 }) m.peers in
        record m { peers = set_height address height joined }

    -- The lines of the messages fit the buffer of the scanner.
    pub record AreBrief (n other : Node F D) : Type 0 where
      pub version_brief : IsBrief w (version_message n)
      pub other_brief : IsBrief w (version_message other)
      pub verack_brief : IsBrief w verack_message
      pub get_blocks_brief : IsBrief w (get_blocks_message w (get_block_count n.chain.store))
      pub blocks_brief :
          All
            (λ b. IsBrief w (block_message b))
            (get_blocks {F = F} (get_block_count n.chain.store) other.chain)

    module _ (wire : IsWire F) (scans : IsScan scan) where
      deliver-eq :
          (n : Node F D) (address : Str) (msgs : List Message)
          → All (IsDeliverable wire) msgs
          → deliver n address msgs ≡ handle_messages sum256 n address msgs
      unfolding deliver
      deliver-eq n address msgs ok = receive_all-stream wire sum256 scan scans n address msgs ok

      pub round-eq :
          (a b : Str) (x y : Node F D × Sent) (to_first to_second : List Message)
          → messages_to a y.1 ≡ to_first
          → messages_to b x.1 ≡ to_second
          → All (IsDeliverable wire) to_first
          → All (IsDeliverable wire) to_second
          → round a b (x, y)
            ≡ (handle_messages sum256 x.0 b to_first, handle_messages sum256 y.0 a to_second)
      unfolding round
      round-eq a b x y to_first to_second e f ok ok' =
          rw (e, f) (λ i. (deliver-eq x.0 b to_first ok i, deliver-eq y.0 a to_second ok' i))

      module _ (n other : Node F D) (a b : Str) (brief : AreBrief n other)
          (lt : get_best n.chain < 2 ^ 64) (other_lt : get_best other.chain < 2 ^ 64) where
        verack-IsDeliverable : IsDeliverable wire verack_message
        verack-IsDeliverable = record { made = wire.verack_made; fits = brief.verack_brief }

        abbrev height_of : Node F D → VersionPayload
        height_of m = record {
          version = m.config.protocol_version;
          height = get_best m.chain;
          network_id = m.config.network_id;
        }

        pub first_round :
            (requests : Sent)
            → (if ltb (get_best n.chain) (get_best other.chain)
                then (b, get_blocks_message w ((get_best n.chain + 1) % 2 ^ 64)) ∷ []
                else [])
              ≡ requests
            → get_best n.chain ≤ get_best other.chain
            → round a b (connect n b, connect other a) ≡ (
              (greeted n b (get_best other.chain), (b, verack_message) ∷ requests),
              (greeted other a (get_best n.chain), (a, verack_message) ∷ []),
            )
        unfolding connect version_message messages_to
        first_round requests e le =
            let top : ltb (get_best other.chain) (get_best n.chain) ≡ false = ground arith in
            round-eq a b (connect n b) (connect other a) (version_message other ∷ [])
              (version_message n ∷ []) (messages_to_self a (version_message other) [])
              (messages_to_self b (version_message n) [])
              (record { made = wire.version_made _; fits = brief.other_brief }, tt)
              (record { made = wire.version_made _; fits = brief.version_brief }, tt)
            ∙ (λ i. (
              (after_version sum256 wire (connect n b).0 b (height_of other) other_lt
                    ∙ ap
                        (λ (r : Sent).
                          (greeted n b (get_best other.chain), (b, verack_message) ∷ r))
                        e)
                  i,
              (after_version sum256 wire (connect other a).0 a (height_of n) lt
                    ∙ ap
                        (λ (more : Bool). (
                          greeted other a (get_best n.chain),
                          (a, verack_message)
                              ∷ (if more
                                  then (
                                    a,
                                    get_blocks_message w ((get_best other.chain + 1) % 2 ^ 64),
                                  )
                                    ∷ []
                                  else []),
                        ))
                        top)
                  i,
            ))

        pub second_round :
            (requests : Sent) (asked : List Message)
            → messages_to b requests ≡ asked
            → All (IsDeliverable wire) asked
            → round a b (
              (greeted n b (get_best other.chain), (b, verack_message) ∷ requests),
              (greeted other a (get_best n.chain), (a, verack_message) ∷ []),
            )
              ≡ (
                (greeted n b (get_best other.chain), []),
                handle_messages sum256 (greeted other a (get_best n.chain)) a asked,
              )
        unfolding messages_to handle_messages
        second_round requests asked e ok =
            round-eq a b _ _ (verack_message ∷ []) (verack_message ∷ asked)
              (messages_to_self a verack_message [])
              (messages_to_self b verack_message requests ∙ ap (λ ms. verack_message ∷ ms) e)
              (verack-IsDeliverable, tt) (verack-IsDeliverable, ok)
            ∙ (λ i. (
              after_verack sum256 (greeted n b (get_best other.chain)) b [] i,
              after_verack sum256 (greeted other a (get_best n.chain)) a asked i,
            ))
