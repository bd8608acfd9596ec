-- ===== src/Node/Run.antt =====
-- internal/network/node.go: any sequence of connections, messages and disconnections. Each change of
-- the chain is one call under the chain's lock, and each change of the peers is under the node's.
use devinsidercoin.Prelude.{
  ℕ, ◌+◌, ◌≤◌, ◌<◌, ◌^◌, ◌≡◌, refl, Option, none, some, inl, inr, Bool-cases, Option-cases, List,
  [], ◌∷◌, ◌++◌, length, leb, str_eq, arith, Str,
}
use devinsidercoin.Prelude.Dict.{Dict, lookup, IsDistinct, insert-IsDistinct, erase-IsDistinct}
use devinsidercoin.Prelude.Float64.{Float64}
use devinsidercoin.Storage.Database.{Bolt, IsBolt}
use devinsidercoin.Storage.Encoding.{Json, IsJson}
use devinsidercoin.Storage.{get_block_count}
use devinsidercoin.Chain.{Blockchain, BlockError, get_best, add_block}
use devinsidercoin.Chain.Linked.{IsLinked}
use devinsidercoin.Chain.Growth.{IsGrown, same-IsGrown, mempool-IsGrown, add_block-IsGrown}
use devinsidercoin.Node.{
  Node, Peer, Wire, MessageType, version, verack, getblocks, block, tx, other, Sent, connect,
  disconnect, receive, handle_message, handle_by_type, handle_version, handle_block, handle_tx,
  relay_added, set_height,
}

-- What reaches the node: a connection, a line from a connected peer, the end of a connection.
pub data Event : Type 0 where
  connected : Str → Event
  received : Str → List ℕ → Event
  disconnected : Str → Event

lookup-set_height :
    (a p : Str) (h : ℕ) (peers : Dict Peer)
    → lookup p peers ≡ none
    → lookup p (set_height a h peers) ≡ none
unfolding lookup set_height
lookup-set_height a p h [] e = refl
lookup-set_height a p h ((j, q) ∷ peers) e = ground (arith, lookup-set_height a p h peers)

set_height-IsDistinct :
    (a : Str) (h : ℕ) (peers : Dict Peer) → IsDistinct peers → IsDistinct (set_height a h peers)
unfolding set_height
set_height-IsDistinct a h [] d = tt
set_height-IsDistinct a h ((j, q) ∷ peers) d = elim (Bool-cases (str_eq j a)) [
  | inl e ↦ rw e d
  | inr e ↦ rw e (lookup-set_height a j h peers d.0, set_height-IsDistinct a h peers d.1)
]

module _ (sum256 : List ℕ → List ℕ) {F : Type 0} ⦃js : Json F⦄ {D : Type 0} ⦃db : Bolt D⦄ where
  -- The blocks form a chain and no two entries of the peers have one address.
  pub record IsSane (n : Node F D) : Type 0 where
    pub linked : IsLinked sum256 n.chain
    pub peers : IsDistinct n.peers

  -- A node after one event.
  pub record IsStep (n after : Node F D) : Type 0 where
    pub grown : IsGrown sum256 n.chain after.chain
    pub peers : IsDistinct after.peers

module _ (sum256 : List ℕ → List ℕ) {F : Type 0} ⦃fl : Float64 F⦄ ⦃js : Json F⦄ ⦃w : Wire F⦄
    {D : Type 0} ⦃db : Bolt D⦄ where
  unfoldable pub handle_event : Node F D → Event → Node F D × Sent
  handle_event n (connected address) = connect n address
  handle_event n (received address line) = receive sum256 n address line
  handle_event n (disconnected address) = (disconnect n address, [])

  -- The node after the events, and all that it has sent.
  unfoldable pub handle_events : Node F D → List Event → Node F D × Sent
  unfolding handle_event
  handle_events n [] = (n, [])
  handle_events n (e ∷ events) =
      let now = handle_event n e in
      let later = handle_events now.0 events in (later.0, now.1 ++ later.1)

  module _ (laws : IsBolt D) (json : IsJson F) where
    handle_block-IsStep :
        (n : Node F D) (address : Str) (raw : List ℕ)
        → get_block_count n.chain.store < 2 ^ 63
        → IsSane sum256 n
        → IsStep sum256 n (handle_block sum256 n address (js.fill_block raw)).0
    unfolding handle_block
    handle_block-IsStep n address raw room sane =
        elim (Bool-cases (leb (js.fill_block raw).header.height (get_best n.chain))) [
          | inl low ↦
              rw (low, handle_block)
                (record { grown = same-IsGrown sum256 n.chain sane.linked; peers = sane.peers })
          | inr high ↦
              rw (high, handle_block)
                (relayed (add_block sum256 n.chain (js.fill_block raw)) (
                  add_block-IsGrown sum256 laws n.chain (js.fill_block raw) room (json.filled raw)
                    sane.linked))
        ]
      where
        relayed :
            (r : Option BlockError × Blockchain F D)
            → IsGrown sum256 n.chain r.1
            → IsStep sum256 n (relay_added sum256 n address (js.fill_block raw) r).0
        relayed (none, chain) grown =
            unfold relay_added in record { grown = grown; peers = sane.peers }
        relayed (some e, chain) grown =
            unfold relay_added in record { grown = grown; peers = sane.peers }

    handle_by_type-IsStep :
        (type : MessageType) (n : Node F D) (address : Str) (payload : List ℕ)
        → get_block_count n.chain.store < 2 ^ 63
        → IsSane sum256 n
        → IsStep sum256 n (handle_by_type sum256 type n address payload).0
    unfolding handle_by_type handle_version handle_tx
    handle_by_type-IsStep version n address payload room sane = record {
      grown = same-IsGrown sum256 n.chain sane.linked;
      peers = set_height-IsDistinct address (w.fill_version payload).height n.peers sane.peers;
    }
    handle_by_type-IsStep verack n address payload room sane = record {
      grown = same-IsGrown sum256 n.chain sane.linked;
      peers = sane.peers;
    }
    handle_by_type-IsStep getblocks n address payload room sane = record {
      grown = same-IsGrown sum256 n.chain sane.linked;
      peers = sane.peers;
    }
    handle_by_type-IsStep block n address payload room sane =
        handle_block-IsStep n address payload room sane
    handle_by_type-IsStep tx n address payload room sane = record {
      grown = mempool-IsGrown sum256 n.chain (w.fill_tx payload) sane.linked;
      peers = sane.peers;
    }
    handle_by_type-IsStep (other name) n address payload room sane = record {
      grown = same-IsGrown sum256 n.chain sane.linked;
      peers = sane.peers;
    }

    pub handle_event-IsStep :
        (n : Node F D) (e : Event)
        → get_block_count n.chain.store < 2 ^ 63
        → IsSane sum256 n
        → IsStep sum256 n (handle_event n e).0
    unfolding handle_event connect disconnect receive handle_message
    handle_event-IsStep n (connected address) room sane = record {
      grown = same-IsGrown sum256 n.chain sane.linked;
      peers = insert-IsDistinct address _ n.peers sane.peers;
    }
    handle_event-IsStep n (disconnected address) room sane = record {
      grown = same-IsGrown sum256 n.chain sane.linked;
      peers = erase-IsDistinct address n.peers sane.peers;
    }
    handle_event-IsStep n (received address line) room sane =
        elim (Option-cases (w.unmarshal_message line)) [
          | inl e ↦
              rw (e, receive)
                (record { grown = same-IsGrown sum256 n.chain sane.linked; peers = sane.peers })
          | inr (msg, e) ↦
              rw (e, receive) (handle_by_type-IsStep msg.type n address msg.payload room sane)
        ]

    -- Under bbolt's laws, whatever connections, lines and disconnections reach a node whose blocks
    -- form a chain and whose peers are distinct, in any order, its blocks still form a chain and its
    -- peers are still distinct, if decoded blocks survive their encoding and the blocks and the
    -- events are together no more than 2^63.
    pub handle_events-IsSane :
        (n : Node F D) (events : List Event)
        → get_block_count n.chain.store + length events ≤ 2 ^ 63
        → IsSane sum256 n
        → IsSane sum256 (handle_events n events).0
    unfolding handle_events
    handle_events-IsSane n [] room sane = sane
    handle_events-IsSane n (e ∷ events) room sane =
        let step = handle_event-IsStep n e (omega arith) sane in
        handle_events-IsSane (handle_event n e).0 events (omega (arith, step.grown.count))
          (record { linked = step.grown.linked; peers = step.peers })
