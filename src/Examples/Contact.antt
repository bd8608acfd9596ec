-- ===== src/Examples/Contact.antt =====
-- The theorems on the blocks of a store in their order and on two connected nodes, applied.
use devinsidercoin.Prelude.{
  ℕ, ◌+◌, ◌-◌, ◌≤◌, ◌≡◌, refl, sym, ap, ◌∙◌, some, inl, inr, Bool-cases, List, [], ◌∷◌, arith,
  codes, str_eq, str_eq_iff,
}
use devinsidercoin.Prelude.Int.{of_word64, to_word64}
use devinsidercoin.Bytes.{put_big, of_big, encode_to_string}
use devinsidercoin.Bytes.Width.{length-put_big}
use devinsidercoin.Block.{compute_hash, sha256d}
use devinsidercoin.Storage.{
  blocks_between, get_blocks_from, get_block_count, get_best_height, height_key,
  get_block_by_height, key_to_height,
}
use devinsidercoin.Storage.Database.{blocks}
use devinsidercoin.Chain.{Blockchain, load_block, add_block, get_best}
use devinsidercoin.Chain.Queries.{get_blocks, decode_all}
use devinsidercoin.Chain.Linked.{IsLinked, add_block-IsLinked}
use devinsidercoin.Chain.Accept.{IsAccepted, add_block-IsAccepted}
use devinsidercoin.Chain.Behind.{IsBehind-add_block}
use devinsidercoin.Node.{Node, verack_message, version_message}
use devinsidercoin.Node.CatchUp.{IsSynced, get_blocks-blocks_between, decode_all-cons}
use devinsidercoin.Node.Handshake.{AreBrief, contact}
use devinsidercoin.Node.Contact.{contact-IsSynced}
use devinsidercoin.Examples.{fixed, by_height, checksum, sample_block, sample_config}
use devinsidercoin.Storage.Commit.{>>=-eq-some}
use devinsidercoin.Storage.Ascending.{get_blocks_from-blocks_between}
use devinsidercoin.Examples.Lines.{
  by_lines, by_lines-IsScan, by_shift, by_shift-IsWire, short_line, blocks_short,
}
use devinsidercoin.Examples.Store.{Entry, entries, entries-IsBolt, find}
use devinsidercoin.Examples.Network.{
  by_kind, by_height-IsJson, one_block, second-IsNext, second-IsStorable,
}

one_block-count : get_block_count one_block.store ≡ 1
unfolding get_block_count get_best_height entries find of_word64 to_word64 str_eq key_to_height
    of_big put_big
one_block-count = omega arith

one_block-key : (k v : List ℕ) → entries.get one_block.store blocks k ≡ some v → k ≡ height_key 0
unfolding entries find
one_block-key k v e = elim (Bool-cases (str_eq (height_key 0) k)) [
  | inl hit ↦ sym ((str_eq_iff (height_key 0) k).0 hit)
  | inr miss ↦ absurd (cc (rw miss at e))
]

first_loaded : load_block 0 one_block.store ≡ some (sample_block 0)
unfolding load_block get_block_by_height entries find height_key by_height of_big put_big str_eq
first_loaded = refl

one_block-IsLinked : IsLinked checksum one_block
one_block-IsLinked = record {
  bounded = rw one_block-count (omega arith);
  stored_at = λ h lt.
      let zero_h : h ≡ 0 = omega (arith, lt, one_block-count) in
      record {
        block = sample_block 0;
        loaded = ap (λ k. load_block {F = ℕ} k one_block.store) zero_h ∙ first_loaded;
        height = unfold sample_block in sym zero_h;
        hash = unfold sample_block compute_hash sha256d checksum encode_to_string in refl;
        work = λ later. absurd (omega (arith, later, zero_h));
        within = λ later. absurd (omega (arith, later, zero_h));
      };
  exact = λ k v e. (0, omega (arith, one_block-count), one_block-key k v e);
  links = λ h under b lt e1 e2. absurd (omega (arith, lt, one_block-count));
  last = λ h e.
      let zero_h : h ≡ 0 = omega (arith, e, one_block-count) in
      ap (λ k. load_block {F = ℕ} k one_block.store) zero_h ∙ first_loaded;
}

-- The chain with one block more.
abbrev two_blocks : Blockchain ℕ (List Entry)
two_blocks = (add_block checksum one_block (sample_block 1)).1

accepted : IsAccepted one_block (sample_block 1) (add_block checksum one_block (sample_block 1))
unfolding sample_block
accepted =
    add_block-IsAccepted entries-IsBolt checksum one_block (sample_block 1) (omega arith)
      second-IsNext second-IsStorable (unfold entries in λ after. refl)

two_blocks-IsLinked : IsLinked checksum two_blocks
two_blocks-IsLinked =
    add_block-IsLinked checksum entries-IsBolt one_block (sample_block 1)
      (unfold sample_block in omega arith) (unfold by_height sample_block put_big of_big in refl)
      one_block-IsLinked

two_blocks-count : get_block_count two_blocks.store ≡ 2
two_blocks-count = accepted.count ∙ ap (λ k. k + 1) one_block-count

-- A node with one block, and one with two.
abbrev node_of : Blockchain ℕ (List Entry) → Node ℕ (List Entry)
node_of chain = record { config = sample_config; chain = chain; peers = [] }

missing : get_blocks (get_block_count one_block.store) two_blocks ≡ sample_block 1 ∷ []
unfolding decode_all blocks_between
missing =
    let le : 1 ≤ get_block_count two_blocks.store = rw two_blocks-count (omega arith) in
    let top : load_block 1 two_blocks.store ≡ some (sample_block 1) =
      two_blocks-IsLinked.last 1 (sym two_blocks-count) ∙ accepted.last_block in
    rw one_block-count (
      get_blocks-blocks_between entries-IsBolt checksum two_blocks 1 two_blocks-IsLinked le
      ∙ rw two_blocks-count (decode_all-cons 0 1 two_blocks.store (sample_block 1) top))

brief : AreBrief checksum ⦃w = by_shift⦄ by_lines (node_of one_block) (node_of two_blocks)
brief = record {
  version_brief = short_line _ (
      unfold version_message by_shift by_kind in
      omega (arith, length-put_big 8 (get_best one_block)));
  other_brief = short_line _ (
      unfold version_message by_shift by_kind in
      omega (arith, length-put_big 8 (get_best two_blocks)));
  verack_brief = short_line verack_message (omega arith);
  get_blocks_brief = short_line _ (
      unfold by_shift by_kind in omega (arith, length-put_big 8 (get_block_count one_block.store)));
  blocks_brief = blocks_short _;
}

contact-IsSynced_example :
    IsSynced
      (contact checksum ⦃w = by_shift⦄ by_lines
        (node_of one_block)
        (node_of two_blocks)
        (codes "a")
        (codes "b")).0.0.chain
      two_blocks
contact-IsSynced_example =
    contact-IsSynced checksum ⦃w = by_shift⦄ by_lines by_shift-IsWire by_lines-IsScan entries-IsBolt
      by_height-IsJson (node_of one_block) (node_of two_blocks) (codes "a") (codes "b")
      (IsBehind-add_block checksum entries-IsBolt one_block (sample_block 1) one_block-IsLinked
        (rw one_block-count (omega arith)) (unfold sample_block in omega arith) accepted.no_error)
      two_blocks-IsLinked brief (rw missing (second-IsStorable, tt))
      (unfold entries in λ after. refl)

get_blocks_from-blocks_between_example :
    get_blocks_from 1 two_blocks.store
    ≡ blocks_between (get_block_count two_blocks.store - 1) 1 two_blocks.store
unfolding load_block
get_blocks_from-blocks_between_example =
    get_blocks_from-blocks_between entries-IsBolt 1 (get_block_count two_blocks.store)
      two_blocks.store (rw two_blocks-count (omega arith)) two_blocks-IsLinked.bounded
      two_blocks-IsLinked.exact
      (λ h lt.
        let (raw, stored, decoded) =
          >>=-eq-some (get_block_by_height h two_blocks.store) _
            (two_blocks-IsLinked.stored_at h lt).loaded in
        (raw, stored))
