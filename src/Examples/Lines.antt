-- ===== src/Examples/Lines.antt =====
-- Messages as lines, and the theorem on the lines of a connection, applied. A line is the message's
-- bytes, each raised by 14.
use devinsidercoin.Prelude.{
  ℕ, suc, ◌+◌, ◌-◌, ◌≤◌, ◌≡◌, refl, sym, ap, ◌∙◌, Bool, true, false, some, List, [], ◌∷◌, ◌++◌, map,
  length, All, arith, ◌==◌, if◌then◌else◌, codes,
}
use devinsidercoin.Bytes.{put_big}
use devinsidercoin.Bytes.Width.{of_big-put_big, length-put_big}
use devinsidercoin.Block.{Block}
use devinsidercoin.Node.{
  Message, MessageType, version, verack, getblocks, block, tx, other, Wire, block_message,
  verack_message,
}
use devinsidercoin.Node.Session.{
  max_line, IsWire, Scan, IsScan, is_plain, Writer, IsWriter, send_each, send, receive_all,
  handle_messages,
}
use devinsidercoin.Node.Stream.{sent-receive_all}
use devinsidercoin.Node.Answers.{IsBrief}
use devinsidercoin.Examples.{fixed, by_height, checksum, sample_block}
use devinsidercoin.Examples.Store.{entries}
use devinsidercoin.Examples.Network.{kind_of, number_of, by_kind, sample_node}

prepend : ℕ → List (List ℕ) → List (List ℕ)
prepend b [] = (b ∷ []) ∷ []
prepend b (line ∷ lines) = (b ∷ line) ∷ lines

pub lines_of : List ℕ → List (List ℕ)
unfolding prepend
lines_of [] = []
lines_of (b ∷ bytes) = let rest = lines_of bytes in if b == 10 then [] ∷ rest else prepend b rest

lines_of-line :
    (line rest : List ℕ)
    → is_plain line ≡ true
    → lines_of (line ++ (10 ∷ rest)) ≡ line ∷ lines_of rest
unfolding lines_of
lines_of-line [] rest plain = refl
lines_of-line (b ∷ line) rest plain = ground (arith, lines_of-line line rest)

abbrev pub by_lines : Scan
by_lines max bytes = lines_of bytes

pub by_lines-IsScan : IsScan by_lines
unfolding lines_of
by_lines-IsScan = record {
  scan_end = λ max. refl;
  scan_line = λ max line rest plain fits. lines_of-line line rest plain;
}

abbrev shift : List ℕ → List ℕ
shift bytes = map (λ b. b + 14) bytes

abbrev unshift : List ℕ → List ℕ
unshift bytes = map (λ b. b - 14) bytes

unshift-shift : (bytes : List ℕ) → unshift (shift bytes) ≡ bytes
unshift-shift [] = refl
unshift-shift (b ∷ bytes) =
    let same : b + 14 - 14 ≡ b = omega arith in
    ap (λ x. x ∷ unshift (shift bytes)) same ∙ ap (λ xs. b ∷ xs) (unshift-shift bytes)

shift_plain : (bytes : List ℕ) → is_plain (shift bytes) ≡ true
shift_plain [] = refl
shift_plain (b ∷ bytes) = ground (arith, shift_plain bytes)

length-shift : (bytes : List ℕ) → length (shift bytes) ≡ length bytes
length-shift [] = refl
length-shift (b ∷ bytes) = ap suc (length-shift bytes)

instance unfoldable pub by_shift : Wire ℕ
unfolding by_kind
by_shift = record by_kind {
  marshal_message = λ m. some (shift (number_of m.type ∷ m.payload));
  unmarshal_message = λ line. by_kind.unmarshal_message (unshift line);
}

abbrev is_known : MessageType → Bool
is_known (other name) = false
is_known t = true

kind_of-number_of : (t : MessageType) → is_known t ≡ true → kind_of (number_of t) ≡ t
kind_of-number_of version h = refl
kind_of-number_of verack h = refl
kind_of-number_of getblocks h = refl
kind_of-number_of block h = refl
kind_of-number_of tx h = refl
kind_of-number_of (other name) h = cc

pub by_shift-IsWire : IsWire ℕ ⦃js = by_height⦄ ⦃w = by_shift⦄
unfolding by_shift by_kind
by_shift-IsWire = record {
  is_made = λ m. is_known m.type;
  version_made = λ v. refl;
  verack_made = refl;
  get_blocks_made = λ g. refl;
  block_made = λ b. refl;
  survives = λ m made. (
    shift (number_of m.type ∷ m.payload),
    refl,
    ap by_kind.unmarshal_message (unshift-shift (number_of m.type ∷ m.payload))
        ∙ ap (λ (t : MessageType). some (record m { type = t })) (kind_of-number_of m.type made),
    shift_plain (number_of m.type ∷ m.payload),
  );
  version_height = λ v lt. of_big-put_big 8 v.height lt;
  from_height = λ g lt. of_big-put_big 8 g.from_height lt;
}

-- A message with a short payload is short.
pub short_line : (m : Message) → length m.payload ≤ 1000 → IsBrief by_shift m
unfolding by_shift
short_line m short line e =
    let same : shift (number_of m.type ∷ m.payload) ≡ line = cc e in
    rw (← same) (omega (arith, length-shift m.payload))

block_short : (b : Block ℕ) → IsBrief by_shift (block_message ⦃js = by_height⦄ b)
unfolding by_height
block_short b = short_line _ (omega (arith, length-put_big 8 b.header.height))

pub blocks_short :
    (bs : List (Block ℕ)) → All (λ b. IsBrief by_shift (block_message ⦃js = by_height⦄ b)) bs
blocks_short [] = tt
blocks_short (b ∷ bs) = (block_short b, blocks_short bs)

instance unfoldable to_bytes : Writer (List ℕ)
to_bytes = record { write_string = λ out bytes. some (out ++ bytes); flush = λ out. some out }

to_bytes-IsWriter : IsWriter (List ℕ)
unfolding to_bytes
to_bytes-IsWriter = record {
  on_wire = λ out. out;
  flushed = λ w w1 w2 bytes e f.
      let first : w ++ bytes ≡ w1 = cc e in let second : w1 ≡ w2 = cc f in sym (first ∙ second);
}

abbrev two_messages : List Message
two_messages = verack_message ∷ block_message ⦃js = by_height⦄ (sample_block 1) ∷ []

abbrev two_lines : List ℕ
two_lines =
    shift (1 ∷ codes "{}") ++ (10 ∷ shift (3 ∷ 0 ∷ 0 ∷ 0 ∷ 0 ∷ 0 ∷ 0 ∷ 0 ∷ 1 ∷ [])) ++ (10 ∷ [])

sent-receive_all_example :
    receive_all checksum ⦃w = by_shift⦄ sample_node (codes "b") (by_lines max_line two_lines)
    ≡ handle_messages checksum ⦃w = by_shift⦄ sample_node (codes "b") two_messages
unfolding to_bytes-IsWriter by_shift-IsWire
sent-receive_all_example =
    sent-receive_all ⦃w = by_shift⦄ by_shift-IsWire checksum to_bytes-IsWriter by_lines
      by_lines-IsScan [] two_lines sample_node (codes "b") two_messages (unfold to_bytes in refl)
      (unfold send_each send by_shift by_height to_bytes sample_block put_big in refl)
      (
        record { made = unfold by_shift in refl; fits = short_line verack_message (omega arith) },
        (record { made = unfold by_shift in refl; fits = block_short (sample_block 1) }, tt),
      )
