-- ===== src/Node/Stream.antt =====
-- internal/network/node.go: what a peer reads of what `Peer.Send` has written.
use devinsidercoin.Prelude.{
  ℕ, ◌+◌, ◌≤◌, ◌≡◌, refl, sym, ap, ◌∙◌, true, some, List, [], ◌∷◌, ◌++◌, append_assoc, append-nil,
  length, All, Str,
}
use devinsidercoin.Prelude.Float64.{Float64}
use devinsidercoin.Storage.Database.{Bolt}
use devinsidercoin.Storage.Encoding.{Json}
use devinsidercoin.Storage.Commit.{>>=-eq-some}
use devinsidercoin.Node.{Node, Message, Wire, receive, handle_message}
use devinsidercoin.Node.Session.{
  max_line, Writer, IsWriter, IsWire, Scan, IsScan, send, send_each, stream, receive_all,
  handle_messages,
}

module _ {F : Type 0} ⦃js : Json F⦄ ⦃w : Wire F⦄ (wire : IsWire F) where
  -- A message of the program whose line fits the scanner's buffer.
  pub record IsDeliverable (m : Message) : Type 0 where
    pub made : wire.is_made m ≡ true
    pub fits : (line : List ℕ) → w.marshal_message m ≡ some line → length line + 1 ≤ max_line

  -- What successful calls of `Send` have put on the connection.
  pub send_each-stream :
      {W : Type 0} ⦃wr : Writer W⦄ (writes : IsWriter W)
      → (out after : W) (msgs : List Message) → send_each w.marshal_message out msgs ≡ some after
      → writes.on_wire after ≡ writes.on_wire out ++ stream w.marshal_message msgs
  unfolding send_each send stream
  send_each-stream writes out after [] e =
      let same : out ≡ after = cc e in
      ap writes.on_wire (sym same) ∙ sym (append-nil (writes.on_wire out))
  send_each-stream writes out after (m ∷ msgs) e =
      let (mid, sent, rest) = >>=-eq-some _ _ e in
      let (line, marshalled, written) = >>=-eq-some (w.marshal_message m) _ sent in
      let (full, put, flushed) = >>=-eq-some _ _ written in
      let lines : stream w.marshal_message (m ∷ msgs)
          ≡ line ++ (10 ∷ stream w.marshal_message msgs) =
        rw (marshalled, stream) refl in
      rw lines (
        send_each-stream writes mid after msgs rest
        ∙ rw (writes.flushed out full mid (line ++ (10 ∷ [])) put flushed) (simp append_assoc))

  module _ (sum256 : List ℕ → List ℕ) ⦃fl : Float64 F⦄ {D : Type 0} ⦃db : Bolt D⦄ where
    -- Messages of the program whose lines fit the buffer arrive whole and in order: reading the lines
    -- that `Send` writes for them is handling them one after the other.
    pub receive_all-stream :
        (scan : Scan)
        → IsScan scan
        → (n : Node F D) (address : Str) (msgs : List Message) → All IsDeliverable msgs
        → receive_all sum256 n address (scan max_line (stream w.marshal_message msgs))
          ≡ handle_messages sum256 n address msgs
    unfolding receive_all stream handle_messages receive
    receive_all-stream scan scans n address [] ok = rw (scans.scan_end max_line) refl
    receive_all-stream scan scans n address (m ∷ msgs) ok =
        let (line, marshalled, unmarshalled, plain) = wire.survives m ok.0.made in
        let handled : receive sum256 n address line ≡ handle_message sum256 n address m =
          rw (unmarshalled, receive) refl in
        let later =
          receive_all-stream scan scans (handle_message sum256 n address m).0 address msgs ok.1 in
        let lines : scan max_line (stream w.marshal_message (m ∷ msgs))
            ≡ line ∷ scan max_line (stream w.marshal_message msgs) =
          rw (marshalled, stream)
            (scans.scan_line max_line line (stream w.marshal_message msgs) plain
              (ok.0.fits line marshalled)) in
        rw lines (rw (handled, later) refl)

    -- If calls of `Send` for messages of the program, whose lines fit the scanner's buffer, succeed on
    -- a new connection, then the peer that reads the connection handles these messages, whole and in
    -- order, and nothing else.
    pub sent-receive_all :
        {W : Type 0} ⦃wr : Writer W⦄ (writes : IsWriter W) (scan : Scan)
        → IsScan scan
        → (out after : W) (n : Node F D) (address : Str) (msgs : List Message)
        → writes.on_wire out ≡ []
        → send_each w.marshal_message out msgs ≡ some after
        → All IsDeliverable msgs
        → receive_all sum256 n address (scan max_line (writes.on_wire after))
          ≡ handle_messages sum256 n address msgs
    sent-receive_all writes scan scans out after n address msgs new sent ok =
        let written : writes.on_wire after ≡ stream w.marshal_message msgs =
          send_each-stream writes out after msgs sent
          ∙ ap (λ bytes. bytes ++ stream w.marshal_message msgs) new in
        rw written (receive_all-stream scan scans n address msgs ok)
