-- ===== src/Node/Session.antt =====
-- internal/network/node.go: a connection. `Peer.Send` writes a line for each message, and `handlePeer`
-- reads lines until there are no more. The buffered writer and the scanner of the Go library are
-- parameters; a scanner that meets a line that does not fit its buffer yields no more lines.
use devinsidercoin.Prelude.{
  ℕ, ◌+◌, ◌≤◌, ◌<◌, ◌^◌, ◌≡◌, true, Bool, ◌&&◌, not, ◌==◌, Option, none, some, List, [], ◌∷◌, ◌++◌,
  length, Str, str_eq, if◌then◌else◌,
}
use devinsidercoin.Prelude.Float64.{Float64}
use devinsidercoin.Block.{Block}
use devinsidercoin.Storage.Database.{Bolt}
use devinsidercoin.Storage.Encoding.{Json}
use devinsidercoin.Storage.{◌>>=◌}
use devinsidercoin.Node.{
  Node, Message, VersionPayload, GetBlocksPayload, version, getblocks, Wire, Sent, block_message,
  verack_message, connect, disconnect, receive, handle_message,
}

-- The size of the scanner's buffer, `10*1024*1024`.
abbrev pub max_line : ℕ
max_line = 10485760

-- bufio.Writer; `none` is an error.
pub record Writer (W : Type 0) : Type 0 where
  pub write_string : W → List ℕ → Option W
  pub flush : W → Option W

-- What has been written and flushed is on the connection.
pub record IsWriter (W : Type 0) ⦃wr : Writer W⦄ : Type 0 where
  pub on_wire : W → List ℕ
  pub flushed :
      (w w1 w2 : W) (bytes : List ℕ)
      → wr.write_string w bytes ≡ some w1
      → wr.flush w1 ≡ some w2
      → on_wire w2 ≡ on_wire w ++ bytes

-- No line break.
abbrev pub is_plain : List ℕ → Bool
is_plain [] = true
is_plain (b ∷ bytes) = not (b == 10) && not (b == 13) && is_plain bytes

-- bufio.Scanner with a buffer of the given size, on all that a connection brings.
abbrev pub Scan : Type 0
Scan = ℕ → List ℕ → List (List ℕ)

pub record IsScan (scan : Scan) : Type 0 where
  pub scan_end : (max : ℕ) → scan max [] ≡ []
  pub scan_line :
      (max : ℕ) (line rest : List ℕ)
      → is_plain line ≡ true
      → length line + 1 ≤ max
      → scan max (line ++ (10 ∷ rest)) ≡ line ∷ scan max rest

-- What the program relies on of the messages' JSON: the messages that it makes can be encoded, in one
-- line, and come back.
pub record IsWire (F : Type 0) ⦃js : Json F⦄ ⦃w : Wire F⦄ : Type 0 where
  pub is_made : Message → Bool
  pub version_made :
      (v : VersionPayload)
      → is_made (record { type = version; payload = w.marshal_version v }) ≡ true
  pub verack_made : is_made verack_message ≡ true
  pub get_blocks_made :
      (g : GetBlocksPayload)
      → is_made (record { type = getblocks; payload = w.marshal_get_blocks g }) ≡ true
  pub block_made : (b : Block F) → is_made (block_message b) ≡ true
  pub survives :
      (m : Message)
      → is_made m ≡ true
      → (line : List ℕ) × (w.marshal_message m ≡ some line)
        × (w.unmarshal_message line ≡ some m)
        × (is_plain line ≡ true)
  pub version_height :
      (v : VersionPayload)
      → v.height < 2 ^ 64
      → (w.fill_version (w.marshal_version v)).height ≡ v.height
  pub from_height :
      (g : GetBlocksPayload)
      → g.from_height < 2 ^ 64
      → (w.fill_get_blocks (w.marshal_get_blocks g)).from_height ≡ g.from_height

module _ (marshal_message : Message → Option (List ℕ)) where
  -- `Peer.Send`
  unfoldable pub send : {W : Type 0} ⦃wr : Writer W⦄ → W → Message → Option W
  send ⦃wr⦄ out msg = marshal_message msg >>= λ line.
      wr.write_string out (line ++ (10 ∷ [])) >>= λ written. wr.flush written

  -- Calls of `Send` for the messages, one after the other, until one fails.
  unfoldable pub send_each : {W : Type 0} ⦃wr : Writer W⦄ → W → List Message → Option W
  unfolding send
  send_each out [] = some out
  send_each out (m ∷ msgs) = send out m >>= λ sent. send_each sent msgs

  -- The lines of the messages.
  unfoldable pub stream : List Message → List ℕ
  stream [] = []
  stream (m ∷ msgs) =
      let rest = stream msgs in
      elim (marshal_message m) [ none ↦ rest | some line ↦ line ++ (10 ∷ rest) ]

-- The messages among those that are for the address.
unfoldable pub messages_to : Str → Sent → List Message
messages_to address [] = []
messages_to address ((a, m) ∷ sent) =
    let rest = messages_to address sent in if str_eq a address then m ∷ rest else rest

module _ (sum256 : List ℕ → List ℕ) {F : Type 0} ⦃fl : Float64 F⦄ ⦃js : Json F⦄ ⦃w : Wire F⦄
    {D : Type 0} ⦃db : Bolt D⦄ where
  -- The loop of `handlePeer` over the scanner's lines.
  unfoldable pub receive_all : Node F D → Str → List (List ℕ) → Node F D × Sent
  receive_all n address [] = (n, [])
  receive_all n address (line ∷ lines) =
      let now = receive sum256 n address line in
      let later = receive_all now.0 address lines in (later.0, now.1 ++ later.1)

  -- `handlePeer`, on all that the connection brings until it ends.
  unfoldable pub handle_peer : Scan → Node F D → Str → List ℕ → Node F D × Sent
  unfolding receive_all
  handle_peer scan n address bytes =
      let start = connect n address in
      let later = receive_all start.0 address (scan max_line bytes) in
      (disconnect later.0 address, start.1 ++ later.1)

  -- Messages handled one after the other.
  unfoldable pub handle_messages : Node F D → Str → List Message → Node F D × Sent
  handle_messages n address [] = (n, [])
  handle_messages n address (m ∷ msgs) =
      let now = handle_message sum256 n address m in
      let later = handle_messages now.0 address msgs in (later.0, now.1 ++ later.1)
