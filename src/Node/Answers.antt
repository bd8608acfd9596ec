-- ===== src/Node/Answers.antt =====
-- internal/network/node.go: what a node answers to the messages of a new connection.
use devinsidercoin.Prelude.{
  ℕ, ◌+◌, ◌%◌, ◌≤◌, ◌<◌, ◌^◌, ◌≡◌, refl, ap, some, List, [], ◌∷◌, append-nil, map, length, ltb,
  if◌then◌else◌, Str, str_eq_refl,
}
use devinsidercoin.Prelude.Float64.{Float64}
use devinsidercoin.Block.{Block}
use devinsidercoin.Storage.Database.{Bolt}
use devinsidercoin.Storage.Encoding.{Json}
use devinsidercoin.Chain.{get_best}
use devinsidercoin.Chain.Queries.{get_blocks}
use devinsidercoin.Node.{
  Node, Message, version, getblocks, VersionPayload, Wire, Sent, block_message, verack_message,
  set_height, send_blocks, request_blocks, handle_version, handle_by_type, handle_message,
}
use devinsidercoin.Node.Session.{max_line, IsWire, messages_to, handle_messages}

module _ {F : Type 0} where
  abbrev pub version_of : Wire F → VersionPayload → Message
  version_of w v = record { type = version; payload = w.marshal_version v }

  -- The request for the blocks from a height on.
  abbrev pub get_blocks_message : Wire F → ℕ → Message
  get_blocks_message w from = record {
    type = getblocks;
    payload = w.marshal_get_blocks (record { from_height = from });
  }

  -- The message's line fits the buffer of the scanner.
  abbrev pub IsBrief : Wire F → Message → Type 0
  IsBrief w m = (line : List ℕ) → w.marshal_message m ≡ some line → length line + 1 ≤ max_line

pub messages_to_self :
    (address : Str) (m : Message) (sent : Sent)
    → messages_to address ((address, m) ∷ sent) ≡ m ∷ messages_to address sent
unfolding messages_to
messages_to_self address m sent = rw (str_eq_refl address) refl

module _ {F : Type 0} ⦃js : Json F⦄ where
  pub messages_to-blocks :
      (address : Str) (bs : List (Block F))
      → messages_to address (map (λ b. (address, block_message b)) bs) ≡ map block_message bs
  unfolding messages_to
  messages_to-blocks address [] = refl
  messages_to-blocks address (b ∷ bs) =
      rw (str_eq_refl address) (ap (λ ms. block_message b ∷ ms) (messages_to-blocks address bs))

module _ (sum256 : List ℕ → List ℕ) {F : Type 0} ⦃fl : Float64 F⦄ ⦃js : Json F⦄ ⦃w : Wire F⦄
    {D : Type 0} ⦃db : Bolt D⦄ where
  -- What handling a version message does.
  pub after_version :
      (wire : IsWire F) (n : Node F D) (address : Str) (v : VersionPayload)
      → v.height < 2 ^ 64
      → handle_messages sum256 n address (version_of w v ∷ []) ≡ (
        record n { peers = set_height address v.height n.peers },
        (address, verack_message)
            ∷ (if ltb (get_best n.chain) v.height
                then (address, get_blocks_message w ((get_best n.chain + 1) % 2 ^ 64)) ∷ []
                else []),
      )
  unfolding handle_messages handle_message handle_by_type handle_version request_blocks
  after_version wire n address v lt = rw (wire.version_height v lt) (
      ap (λ (sent : Sent). (record n { peers = set_height address v.height n.peers }, sent))
        (append-nil _))

  pub after_verack :
      (n : Node F D) (address : Str) (msgs : List Message)
      → handle_messages sum256 n address (verack_message ∷ msgs)
        ≡ handle_messages sum256 n address msgs
  unfolding handle_messages handle_message handle_by_type
  after_verack n address msgs = refl

  pub after_get_blocks :
      (wire : IsWire F) (n : Node F D) (address : Str) (from : ℕ)
      → from < 2 ^ 64
      → handle_messages sum256 n address (get_blocks_message w from ∷ [])
        ≡ (n, map (λ b. (address, block_message b)) (get_blocks {F = F} from n.chain))
  unfolding handle_messages handle_message handle_by_type send_blocks
  after_get_blocks wire n address from lt =
      rw (wire.from_height (record { from_height = from }) lt)
        (ap (λ (sent : Sent). (n, sent)) (append-nil _))
