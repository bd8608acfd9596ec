-- ===== src/Node.antt =====
-- internal/network/node.go: the peers and the messages. A message is handled as one step on the node,
-- which yields the messages that are sent, in order, with the addresses of the peers. The sockets,
-- the JSON of the payloads (Wire) and the order in which `range` visits the peers are parameters.
pub mod Sync
pub mod Relay
pub mod Run
pub mod Session
pub mod Stream
pub mod CatchUp
pub mod Answers
pub mod Handshake
pub mod Contact
use devinsidercoin.Prelude.{
  ℕ, ◌+◌, ◌%◌, ◌^◌, Bool, true, false, Option, none, some, List, [], ◌∷◌, ◌++◌, map, length, ltb,
  leb, if◌then◌else◌, Str, str_eq, codes,
}
use devinsidercoin.Prelude.Dict.{Dict, lookup, insert, erase}
use devinsidercoin.Prelude.Float64.{Float64}
use devinsidercoin.Config.{NetworkConfig}
use devinsidercoin.Block.{Block, Transaction}
use devinsidercoin.Storage.Database.{Bolt}
use devinsidercoin.Storage.Encoding.{Json}
use devinsidercoin.Chain.{Blockchain, BlockError, get_best, add_block}
use devinsidercoin.Chain.Mempool.{add_to_mempool}
use devinsidercoin.Chain.Queries.{get_blocks}

-- The texts that `handleMessage` compares the type of a message with, and any other.
pub data MessageType : Type 0 where
  version verack getblocks block tx : MessageType
  other : Str → MessageType

pub record Message : Type 0 where
  pub type : MessageType
  pub payload : List ℕ

pub record VersionPayload : Type 0 where
  pub version : ℕ
  pub height : ℕ
  pub network_id : ℕ

pub record GetBlocksPayload : Type 0 where
  pub from_height : ℕ

-- The JSON of the messages; a `fill` is what decoding leaves in a zero value, with or without an
-- error.
pub record Wire (F : Type 0) : Type 0 where
  pub marshal_message : Message → Option (List ℕ)
  pub unmarshal_message : List ℕ → Option Message
  pub marshal_version : VersionPayload → List ℕ
  pub fill_version : List ℕ → VersionPayload
  pub marshal_get_blocks : GetBlocksPayload → List ℕ
  pub fill_get_blocks : List ℕ → GetBlocksPayload
  pub fill_tx : List ℕ → Transaction F

-- The connection itself is left out.
pub record Peer : Type 0 where
  pub address : Str
  pub height : ℕ

pub record Node (F D : Type 0) : Type 0 where
  pub config : NetworkConfig F
  pub chain : Blockchain F D
  pub peers : Dict Peer

-- What is handed to the peers' `Send`.
abbrev pub Sent : Type 0
Sent = List (Str × Message)

-- `peer.Height = height`; the connected peer is the entry of its address.
unfoldable pub set_height : Str → ℕ → Dict Peer → Dict Peer
set_height address height [] = []
set_height address height ((a, p) ∷ peers) =
    let rest = set_height address height peers in
    if str_eq a address then (a, record p { height = height }) ∷ peers else (a, p) ∷ rest

module _ {F D : Type 0} where
  unfoldable pub new_node : NetworkConfig F → Blockchain F D → Node F D
  new_node cfg chain = record { config = cfg; chain = chain; peers = [] }

  unfoldable pub get_peer_count : Node F D → ℕ
  get_peer_count n = length n.peers

  unfoldable pub get_peer_addresses : Node F D → List Str
  get_peer_addresses n = map (λ e. e.0) n.peers

unfoldable pub send_all : Message → Dict Peer → Sent
send_all msg peers = map (λ e. (e.0, msg)) peers

-- The loop of the relay, which leaves out the sender.
unfoldable pub send_others : Str → Message → Dict Peer → Sent
send_others address msg [] = []
send_others address msg ((a, p) ∷ peers) =
    let rest = send_others address msg peers in if str_eq a address then rest else (a, msg) ∷ rest

module _ {F : Type 0} ⦃js : Json F⦄ where
  abbrev pub block_message : Block F → Message
  block_message b = record { type = block; payload = js.marshal_block b }

  abbrev pub tx_message : Transaction F → Message
  tx_message t = record { type = tx; payload = js.marshal_tx t }

  module _ {D : Type 0} where
    unfoldable pub broadcast_block : Node F D → Block F → Sent
    unfolding send_all
    broadcast_block n b = send_all (block_message b) n.peers

    unfoldable pub broadcast_tx : Node F D → Transaction F → Sent
    unfolding send_all
    broadcast_tx n t = send_all (tx_message t) n.peers

module _ {F : Type 0} ⦃w : Wire F⦄ {D : Type 0} where
  unfoldable pub request_blocks : Node F D → Str → ℕ → Sent
  request_blocks n address from_height =
      let msg : Message = record {
        type = getblocks;
        payload = w.marshal_get_blocks (record { from_height = from_height });
      } in
      (address, msg) ∷ []

module _ {F : Type 0} ⦃js : Json F⦄ {D : Type 0} ⦃db : Bolt D⦄ where
  unfoldable pub send_blocks : Node F D → Str → ℕ → Sent
  send_blocks n address from_height =
      map (λ b. (address, block_message b)) (get_blocks {F = F} from_height n.chain)

-- `json.Marshal(struct{}{})`
abbrev pub verack_message : Message
verack_message = record { type = verack; payload = codes "{}" }

module _ {F : Type 0} ⦃fl : Float64 F⦄ ⦃js : Json F⦄ ⦃w : Wire F⦄ {D : Type 0} ⦃db : Bolt D⦄ where
  unfoldable pub version_message : Node F D → Message
  version_message n = record {
    type = version;
    payload = w.marshal_version (record {
      version = n.config.protocol_version;
      height = get_best n.chain;
      network_id = n.config.network_id;
    });
  }

  -- `handlePeer` up to its loop.
  unfoldable pub connect : Node F D → Str → Node F D × Sent
  unfolding version_message
  connect n address = (
    record n { peers = insert address (record { address = address; height = 0 }) n.peers },
    (address, version_message n) ∷ [],
  )

  -- `handlePeer` after its loop.
  unfoldable pub disconnect : Node F D → Str → Node F D
  disconnect n address = record n { peers = erase address n.peers }

  -- The case "version".
  unfoldable pub handle_version : Node F D → Str → VersionPayload → Node F D × Sent
  unfolding request_blocks
  handle_version n address vp = (
    record n { peers = set_height address vp.height n.peers },
    (address, verack_message)
        ∷ (if ltb (get_best n.chain) vp.height
            then request_blocks n address ((get_best n.chain + 1) % 2 ^ 64)
            else []),
  )

  module _ (sum256 : List ℕ → List ℕ) where
    -- The end of the case "block"; there is no `OnNewBlock`, which nothing sets.
    unfoldable pub relay_added :
        Node F D → Str → Block F → Option BlockError × Blockchain F D → Node F D × Sent
    unfolding send_others
    relay_added n address b (some e, chain) = (record n { chain = chain }, [])
    relay_added n address b (none, chain) =
        (record n { chain = chain }, send_others address (block_message b) n.peers)

    -- The case "block".
    unfoldable pub handle_block : Node F D → Str → Block F → Node F D × Sent
    unfolding relay_added
    handle_block n address b =
        if leb b.header.height (get_best n.chain)
        then (n, [])
        else relay_added n address b (add_block sum256 n.chain b)

    -- The case "tx"; the error is dropped.
    unfoldable pub handle_tx : Node F D → Transaction F → Node F D × Sent
    handle_tx n t = (record n { chain = (add_to_mempool n.chain t).1 }, [])

    unfoldable pub handle_by_type : MessageType → Node F D → Str → List ℕ → Node F D × Sent
    unfolding handle_version handle_block handle_tx send_blocks
    handle_by_type version n address payload = handle_version n address (w.fill_version payload)
    handle_by_type verack n address payload = (n, [])
    handle_by_type getblocks n address payload =
        (n, send_blocks n address (w.fill_get_blocks payload).from_height)
    handle_by_type block n address payload = handle_block n address (js.fill_block payload)
    handle_by_type tx n address payload = handle_tx n (w.fill_tx payload)
    handle_by_type (other name) n address payload = (n, [])

    unfoldable pub handle_message : Node F D → Str → Message → Node F D × Sent
    unfolding handle_by_type
    handle_message n address msg = handle_by_type msg.type n address msg.payload

    -- A round of the loop of `handlePeer`: a line that does not decode is passed over.
    unfoldable pub receive : Node F D → Str → List ℕ → Node F D × Sent
    unfolding handle_message
    receive n address line = elim (w.unmarshal_message line) [
      | none ↦ (n, [])
      | some msg ↦ handle_message n address msg
    ]
