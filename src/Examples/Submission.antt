-- ===== src/Examples/Submission.antt =====
-- The way of a block from a template through the miner to the chain, at one template. The miner sends
-- a block as its nonce and its hash; an answer is 0 and the result, or 1 for an error.
use devinsidercoin.Prelude.{
  ℕ, ◌^◌, ◌<◌, ◌≡◌, refl, sym, ap, none, some, Option, List, [], ◌∷◌, if◌then◌else◌, arith, codes,
  str_eq, ◌==◌,
}
use devinsidercoin.Prelude.Int.{pos, int64, of_word64, ◌-ℤ◌}
use devinsidercoin.Prelude.Dict.{lookup, insert, get_or}
use devinsidercoin.Bytes.{put_big, of_big, put_little, decode_string, encode_to_string}
use devinsidercoin.Block.{
  Block, BlockHeader, compute_hash, serialize, sha256d, pad_hash_bytes, compute_merkle_root,
  merkle_loop, merkle_level, leaf_hash, new_coinbase_transaction, compute_tx_id,
}
use devinsidercoin.Storage.Encoding.{Json}
use devinsidercoin.Storage.{get_block_count, get_best_height, float_to_bytes}
use devinsidercoin.Storage.Total.{IsStorable, IsKey}
use devinsidercoin.Bytes.Hex.{length-encode_to_string}
use devinsidercoin.Block
use devinsidercoin.Pow.{
  check_proof_of_work, bits_to_target, apply_progressive_difficulty, progressive_difficulty_floor,
}
use devinsidercoin.Stakes.{calc_pos_rewards, eligible_staked}
use devinsidercoin.Ledger.{
  apply_transactions, apply_kind, apply_mint, apply_transfer, credit_output, set_balance,
}
use devinsidercoin.Chain.{Blockchain, block_commit, block_effects, collect_tx_ids}
use devinsidercoin.Chain.Template.{
  calc_block_reward, create_block_template, template_bits, template_prev_hash, halve,
  template_transactions, reward_transactions,
}
use devinsidercoin.Chain.Template.Valid.{mined}
use devinsidercoin.Miner.Loop.{Passes}
use devinsidercoin.Miner.Client.{MinerJson, miner_round, miner_rounds}
use devinsidercoin.Miner.Posts.{IsHttp, post_rpc}
use devinsidercoin.Miner.Rounds.{IsCounted, miner_rounds-IsCounted}
use devinsidercoin.Miner.Success.{IsExchange, IsMined, miner_round-mined}
use devinsidercoin.Rpc.{
  Server, getblocktemplate, submitblock, RpcRequest, Response, rpc_result, rpc_error, json_ok,
  json_err, attachment, empty_ok, not_found, aborted, is_blank,
}
use devinsidercoin.Examples.{fixed, by_height, checksum, checksum-IsByte, sample_block}
use devinsidercoin.Examples.Store.{Entry, entries, entries-IsBolt, find}
use devinsidercoin.Examples.Templates.{funded, funded-IsUsable}
use devinsidercoin.Examples.Network.{by_kind, sample_node}
use devinsidercoin.Examples.Wallets.{with_lengths, no_wallets}
use devinsidercoin.Examples.Requests.{by_method, times}

-- The chain that a miner asks, without a mempool.
abbrev asked : Blockchain ℕ (List Entry)
asked = record funded { mempool = [] }

template : Block ℕ
template =
    elim (create_block_template ⦃js = by_height⦄ checksum asked (codes "miner") (pos 1700000000)
      (pos 1700000001) (pos 1700000002)) [ none ↦ sample_block 0 | some t ↦ t ]

-- An encoding of the blocks that are mined of the template.
instance unfoldable exchanged : Json ℕ
exchanged = record by_height {
  unmarshal_block = λ raw. elim raw [
    | [] ↦ none
    | nonce ∷ hash ↦
        some (record template { header = record template.header { nonce = nonce }; hash = hash })
  ];
}

instance unfoldable by_answer : MinerJson
by_answer = record {
  marshal_address = λ a. a;
  marshal_request =
      λ method params id. (if str_eq method (codes "getblocktemplate") then 0 else 1) ∷ params;
  fill_reply = λ raw. elim raw [
    | [] ↦ record { result = []; error = some []; id = none }
    | k ∷ rest ↦ record {
      result = rest;
      error = if k == 0 then none else some rest;
      id = some (codes "1");
    }
  ];
  fill_raw_block = λ raw. record { header = template.header; transactions = []; hash = [] };
  marshal_raw_block = λ b. b.header.nonce ∷ b.hash;
}

render : Response ℕ → Option (List ℕ)
render (rpc_result id r) = some (0 ∷ id)
render (rpc_error id e) = some (1 ∷ id)
render (json_ok r) = some []
render (json_err status e) = some []
render (attachment file) = some []
render empty_ok = some []
render not_found = some []
render aborted = none

template_made :
    create_block_template ⦃js = exchanged⦄ checksum asked
      (codes "miner")
      (pos 1700000000)
      (pos 1700000001)
      (pos 1700000002)
    ≡ some template
unfolding template exchanged create_block_template get_block_count get_best_height entries find
    str_eq template_bits template_prev_hash apply_progressive_difficulty
    progressive_difficulty_floor bits_to_target calc_block_reward halve fixed template_transactions
    reward_transactions calc_pos_rewards eligible_staked compute_merkle_root merkle_loop
    merkle_level leaf_hash sha256d checksum by_height put_big encode_to_string
    new_coinbase_transaction compute_tx_id int64 of_word64 ◌-ℤ◌
template_made = refl

template-Passes : Passes checksum template.header 0
unfolding template exchanged create_block_template get_block_count get_best_height entries find
    str_eq template_bits template_prev_hash apply_progressive_difficulty
    progressive_difficulty_floor bits_to_target calc_block_reward halve fixed template_transactions
    reward_transactions calc_pos_rewards eligible_staked compute_merkle_root merkle_loop
    merkle_level leaf_hash sha256d checksum by_height put_big encode_to_string
    new_coinbase_transaction compute_tx_id int64 of_word64 ◌-ℤ◌ check_proof_of_work compute_hash
    serialize pad_hash_bytes put_little decode_string of_big
template-Passes = refl

mined-hash : (n : ℕ) → IsKey (mined checksum template n).hash
unfolding Block.compute_hash sha256d
mined-hash n =
    let size = (checksum-IsByte (checksum (serialize (mined checksum template n).header))).0 in
    let digits =
      length-encode_to_string
        (checksum (checksum (serialize (mined checksum template n).header))) in
    (omega (arith, size, digits), omega (arith, size, digits))

mined-IsStorable :
    (n : ℕ)
    → n < 2 ^ 64
    → IsStorable ⦃js = exchanged⦄ (block_commit ⦃js = exchanged⦄ asked (mined checksum template n))
unfolding template exchanged create_block_template get_block_count get_best_height entries find
    str_eq template_bits template_prev_hash apply_progressive_difficulty
    progressive_difficulty_floor bits_to_target calc_block_reward halve fixed template_transactions
    reward_transactions calc_pos_rewards eligible_staked compute_merkle_root merkle_loop
    merkle_level leaf_hash sha256d checksum by_height put_big encode_to_string
    new_coinbase_transaction compute_tx_id int64 of_word64 ◌-ℤ◌ block_commit block_effects
    apply_transactions apply_kind apply_mint apply_transfer credit_output set_balance insert lookup
    get_or float_to_bytes collect_tx_ids
mined-IsStorable n lt = record {
  hash = mined-hash n;
  block_json = omega arith;
  balances = (((omega arith, omega arith), omega arith), tt);
  stakes = tt;
  tx_ids = ((omega arith, omega arith), tt);
  total_minted = omega arith;
}

abbrev asked_server : Server ℕ (List Entry)
asked_server = record { node = record sample_node { chain = asked }; wallets = no_wallets }

exchange-IsHttp : IsHttp render
unfolding by_answer by_method render str_eq
exchange-IsHttp = record {
  template_method = λ params req e.
      let same : record { method = getblocktemplate; params = params; id = codes "1" } ≡ req =
        cc e in
      ap (λ (r : RpcRequest). r.method) (sym same);
  submit_method = λ params req e.
      let same : record { method = submitblock; params = params; id = codes "1" } ≡ req = cc e in
      ap (λ (r : RpcRequest). r.method) (sym same);
  error_seen = λ id e. (1 ∷ id, refl, id, refl);
  result_seen = λ id r. (0 ∷ id, refl, refl);
}

exchange : IsExchange ⦃js = exchanged⦄ render (codes "miner") template
unfolding by_answer by_method render exchanged str_eq
exchange = record {
  asked = record { method = getblocktemplate; params = codes "miner"; id = codes "1" };
  asked_as = refl;
  names = refl;
  same_header = λ body e. refl;
  carried = λ body h hash e same below. (
    record { method = submitblock; params = h.nonce ∷ hash; id = codes "1" },
    refl,
    ap (λ (g : BlockHeader). some (record template { header = g; hash = hash })) (sym same),
  );
}

miner_round-mined_example :
    IsMined checksum template
      (3, (asked_server, 0))
      (miner_round
        (post_rpc checksum ⦃js = exchanged⦄ render (λ k. times))
        checksum
        (codes "http://localhost/rpc")
        (codes "miner")
        (3, (asked_server, 0)))
miner_round-mined_example =
    miner_round-mined checksum ⦃js = exchanged⦄ render exchange-IsHttp (λ k. times)
      (codes "http://localhost/rpc") (codes "miner") entries-IsBolt checksum-IsByte 3 0 60 0
      asked_server template exchange (unfold is_blank str_eq in refl) funded-IsUsable template_made
      (omega arith) template-Passes (λ n lt. (unfold exchanged by_height put_big in omega arith))
      (unfold get_block_count get_best_height entries find in omega arith) mined-IsStorable
      (unfold entries in λ after. refl)

miner_rounds-IsCounted_example :
    IsCounted 5
      (3, (asked_server, 0))
      (miner_rounds
        (post_rpc checksum ⦃js = exchanged⦄ render (λ k. times))
        checksum
        5
        (codes "http://localhost/rpc")
        (codes "miner")
        (3, (asked_server, 0)))
miner_rounds-IsCounted_example =
    miner_rounds-IsCounted checksum ⦃js = exchanged⦄ render exchange-IsHttp entries-IsBolt
      (λ k. times) (codes "http://localhost/rpc") (codes "miner") 5 3 (asked_server, 0)
      (omega arith) (unfold get_block_count get_best_height entries find in omega arith)
