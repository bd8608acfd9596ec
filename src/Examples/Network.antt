-- ===== src/Examples/Network.antt =====
-- The theorems on the peers and on the queries, applied. A message is its kind, a number, and its
-- payload.
use devinsidercoin.Prelude.{
  ℕ, ◌%◌, ◌^◌, ◌<◌, ◌≡◌, refl, ap, ◌∙◌, none, some, List, [], ◌∷◌, ◌++◌, arith, codes, str_eq, ◌==◌,
  if◌then◌else◌,
}
use devinsidercoin.Prelude.Int.{of_word64, to_word64}
use devinsidercoin.Prelude.Dict.{lookup, insert, get_or}
use devinsidercoin.Bytes.{put_big, of_big, put_little, decode_string, encode_to_string}
use devinsidercoin.Bytes.Width.{of_big-put_big}
use devinsidercoin.Block.{compute_hash, serialize, sha256d, pad_hash_bytes}
use devinsidercoin.Pow.{check_proof_of_work, bits_to_target, progressive_difficulty_floor}
use devinsidercoin.Storage.{
  get_block_count, get_best_height, height_key, best_height_key, key_to_height, float_to_bytes,
}
use devinsidercoin.Storage.Total.{IsStorable}
use devinsidercoin.Storage.Database.{blocks, meta}
use devinsidercoin.Storage.Encoding.{IsJson}
use devinsidercoin.Ledger.{
  apply_transactions, apply_kind, apply_mint, apply_transfer, credit_output, set_balance,
}
use devinsidercoin.Chain.{
  Blockchain, validate_block, is_unlinked, is_below_floor, block_commit, block_effects, add_block,
  collect_tx_ids,
}
use devinsidercoin.Chain.Validate.{IsNext, validate_block_iff}
use devinsidercoin.Chain.Accept.{IsAccepted, add_block-IsAccepted}
use devinsidercoin.Chain.Queries.{transactions_of, get_transactions}
use devinsidercoin.Chain.History.{add_block-get_transactions}
use devinsidercoin.Node.{
  Node, Peer, Wire, MessageType, version, verack, getblocks, block, tx, other, handle_block,
}
use devinsidercoin.Node.Relay.{IsRelayed, handle_block-IsRelayed}
use devinsidercoin.Examples.{fixed, by_height, checksum, sending, sample_block, sample_config}
use devinsidercoin.Examples.Chains.{empty_chain}
use devinsidercoin.Examples.Store.{Entry, entries, entries-IsBolt, find}

abbrev pub number_of : MessageType → ℕ
number_of version = 0
number_of verack = 1
number_of getblocks = 2
number_of block = 3
number_of tx = 4
number_of (other name) = 5

abbrev pub kind_of : ℕ → MessageType
kind_of k =
    if k == 0
    then version
    else if k == 1
    then verack
    else if k == 2
    then getblocks
    else if k == 3
    then block
    else if k == 4
    then tx
    else other []

instance unfoldable pub by_kind : Wire ℕ
by_kind = record {
  marshal_message = λ m. some (number_of m.type ∷ m.payload);
  unmarshal_message = λ line. elim line [
    | [] ↦ none
    | k ∷ payload ↦ some (record { type = kind_of k; payload = payload })
  ];
  marshal_version = λ v. put_big 8 v.height;
  fill_version = λ b. record { version = 1; height = of_big b; network_id = 1 };
  marshal_get_blocks = λ g. put_big 8 g.from_height;
  fill_get_blocks = λ b. record { from_height = of_big b };
  fill_tx = λ b. sending;
}

sample_block_survives :
    (n : ℕ)
    → n < 2 ^ 64
    → by_height.unmarshal_block (by_height.marshal_block (sample_block n)) ≡ some (sample_block n)
unfolding by_height sample_block
sample_block_survives n lt =
    ap (λ k. some (sample_block (k % 2 ^ 64))) (of_big-put_big 8 n (omega arith))
    ∙ ap (λ k. some (sample_block k)) (omega arith)

pub by_height-IsJson : IsJson ℕ
unfolding by_height
by_height-IsJson = record {
  filled = λ raw. sample_block_survives (of_big raw % 2 ^ 64) (omega arith);
  decoded = λ raw b e.
      let same : sample_block (of_big raw % 2 ^ 64) ≡ b = cc e in
      rw (← same) (sample_block_survives (of_big raw % 2 ^ 64) (omega arith));
  filled_as = λ raw b e. cc e;
}

-- A chain of one block.
abbrev pub one_block : Blockchain ℕ (List Entry)
one_block = record empty_chain {
  store =
      record { bucket = meta; key = best_height_key; value = put_big 8 0 }
      ∷ record { bucket = blocks; key = height_key 0; value = put_big 8 0 }
      ∷ [];
  last_block = some (sample_block 0);
}

abbrev pub peer_at : List ℕ → List ℕ × Peer
peer_at a = (a, record { address = a; height = 0 })

abbrev pub sample_node : Node ℕ (List Entry)
sample_node = record {
  config = sample_config;
  chain = one_block;
  peers = peer_at (codes "a") ∷ peer_at (codes "b") ∷ [];
}

handle_block-IsRelayed_example :
    IsRelayed sample_node
      (codes "a")
      (sample_block 1)
      (add_block checksum one_block (sample_block 1))
      (handle_block checksum sample_node (codes "a") (sample_block 1))
unfolding lookup str_eq
handle_block-IsRelayed_example =
    handle_block-IsRelayed checksum sample_node (codes "a") (sample_block 1) (refl, (refl, tt))
      (unfold get_block_count get_best_height entries find of_word64 to_word64 str_eq key_to_height
          of_big put_big in
        omega arith)

pub second-IsNext : IsNext checksum one_block (sample_block 1)
unfolding validate_block is_unlinked is_below_floor get_block_count get_best_height entries find
    sample_block check_proof_of_work compute_hash sha256d serialize pad_hash_bytes put_little
    decode_string encode_to_string checksum bits_to_target progressive_difficulty_floor by_height
    put_big of_big str_eq of_word64 to_word64 key_to_height
second-IsNext = (validate_block_iff checksum one_block (sample_block 1)).0 refl

pub second-IsStorable : IsStorable (block_commit one_block (sample_block 1))
unfolding sample_block block_commit block_effects apply_transactions apply_kind apply_mint
    apply_transfer credit_output set_balance insert lookup get_or fixed str_eq by_height put_big
    float_to_bytes collect_tx_ids encode_to_string
second-IsStorable = record {
  hash = (omega arith, omega arith);
  block_json = omega arith;
  balances =
      (((omega arith, omega arith), omega arith), (((omega arith, omega arith), omega arith), tt));
  stakes = tt;
  tx_ids = ((omega arith, omega arith), ((omega arith, omega arith), tt));
  total_minted = omega arith;
}

add_block-IsAccepted_example :
    IsAccepted one_block (sample_block 1) (add_block checksum one_block (sample_block 1))
unfolding sample_block
add_block-IsAccepted_example =
    add_block-IsAccepted entries-IsBolt checksum one_block (sample_block 1) (omega arith)
      second-IsNext second-IsStorable (unfold entries in λ after. refl)

add_block-get_transactions_example :
    get_transactions (codes "alice") (add_block checksum one_block (sample_block 1)).1
    ≡ get_transactions (codes "alice") one_block
      ++ transactions_of (codes "alice") (sample_block 1).transactions
add_block-get_transactions_example =
    add_block-get_transactions entries-IsBolt checksum (codes "alice") one_block (sample_block 1)
      (unfold sample_block in omega arith) (unfold by_height sample_block put_big of_big in refl)
      (add_block-IsAccepted entries-IsBolt checksum one_block (sample_block 1)
        (unfold sample_block in omega arith) second-IsNext second-IsStorable
        (unfold entries in λ after. refl)).no_error
