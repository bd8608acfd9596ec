-- ===== src/Miner/Client.antt =====
-- cmd/dvcminer/main.go: the requests to the node and the loop of `main`. net/http and encoding/json are
-- parameters; `post` yields the body of the answer, or `none` for an error, and what has become of the
-- world. The printed lines and the pause after an error are left out.
use devinsidercoin.Prelude.{
  ℕ, zero, suc, ◌+◌, ◌%◌, ◌^◌, ◌⊎◌, inl, inr, Option, none, some, List, [], ◌++◌, Str, codes,
  str_eq, if◌then◌else◌,
}
use devinsidercoin.Block.{BlockHeader}
use devinsidercoin.Miner.{mine}

-- The miner's `Block`: the transactions stay as the JSON text that came.
pub record RawBlock : Type 0 where
  pub header : BlockHeader
  pub transactions : List ℕ
  pub hash : Str

-- `RPCResponse`; `none` is nil.
pub record RpcReply : Type 0 where
  pub result : List ℕ
  pub error : Option (List ℕ)
  pub id : Option (List ℕ)

-- A `fill` is what decoding leaves in a zero value, with or without an error.
pub record MinerJson : Type 0 where
  pub marshal_address : Str → List ℕ
  pub marshal_request : Str → List ℕ → ℕ → List ℕ
  pub fill_reply : List ℕ → RpcReply
  pub fill_raw_block : List ℕ → RawBlock
  pub marshal_raw_block : RawBlock → List ℕ

pub data MinerError : Type 0 where
  no_answer : MinerError
  refused : List ℕ → MinerError

-- The loop over the nonces: the template with the nonce that was found and its hash.
unfoldable pub search_nonce : (List ℕ → List ℕ) → RawBlock → Option RawBlock
search_nonce sum256 t = elim (mine sum256 t.header) [
  | none ↦ none
  | some found ↦ some (record t { header = found.0; hash = found.1 })
]

-- `totalMined++` after a submission without an error; the total is a bit pattern.
unfoldable pub tally : {W : Type 0} → ℕ → Option MinerError × W → ℕ × W
tally total (some e, world) = (total, world)
tally total (none, world) = ((total + 1) % 2 ^ 64, world)

module _ ⦃mj : MinerJson⦄ where
  -- `getBlockTemplate` after the call of `http.Post`.
  unfoldable pub template_of : Option (List ℕ) → MinerError ⊎ RawBlock
  template_of none = inl no_answer
  template_of (some body) =
      let reply = mj.fill_reply body in
      elim reply.error [ some e ↦ inl (refused e) | none ↦ inr (mj.fill_raw_block reply.result) ]

  -- `submitBlock` after the call of `http.Post`; `none` is no error.
  unfoldable pub verdict_of : Option (List ℕ) → Option MinerError
  verdict_of none = some no_answer
  verdict_of (some body) = elim (mj.fill_reply body).error [
    | some e ↦ some (refused e)
    | none ↦ none
  ]

  module _ {W : Type 0} (post : Str → List ℕ → W → Option (List ℕ) × W) where
    unfoldable pub get_block_template : Str → Str → W → (MinerError ⊎ RawBlock) × W
    unfolding template_of
    get_block_template url address world =
        let params = mj.marshal_address address in
        let body = mj.marshal_request (codes "getblocktemplate") params 1 in
        let answer = post url body world in (template_of answer.0, answer.1)

    unfoldable pub submit_block : Str → RawBlock → W → Option MinerError × W
    unfolding verdict_of
    submit_block url block world =
        let body = mj.marshal_request (codes "submitblock") (mj.marshal_raw_block block) 2 in
        let answer = post url body world in (verdict_of answer.0, answer.1)

    module _ (sum256 : List ℕ → List ℕ) where
      -- What is left of a round when there is a template.
      unfoldable pub finish_round : Str → ℕ → RawBlock → W → ℕ × W
      unfolding submit_block search_nonce tally
      finish_round url total t world = elim (search_nonce sum256 t) [
        | none ↦ (total, world)
        | some block ↦ tally total (submit_block url block world)
      ]

      -- What is left of a round after the request for a template.
      unfoldable pub with_template : Str → ℕ → (MinerError ⊎ RawBlock) × W → ℕ × W
      unfolding finish_round
      with_template url total (inl e, world) = (total, world)
      with_template url total (inr t, world) = finish_round url total t world

      -- A round of the loop of `main`.
      unfoldable pub miner_round : Str → Str → ℕ × W → ℕ × W
      unfolding get_block_template with_template
      miner_round url address (total, world) =
          with_template url total (get_block_template url address world)

      -- The first rounds of the loop, which has no end.
      unfoldable pub miner_rounds : ℕ → Str → Str → ℕ × W → ℕ × W
      unfolding miner_round
      miner_rounds zero url address state = state
      miner_rounds (suc n) url address state =
          miner_rounds n url address (miner_round url address state)

      -- `main` with its two flags, and as many rounds; `none` is the exit without an address.
      unfoldable pub run_miner : ℕ → Str → Str → W → Option (ℕ × W)
      unfolding miner_rounds
      run_miner n rpc_address address world =
          if str_eq address []
          then none
          else some
              (miner_rounds n (codes "http://" ++ rpc_address ++ codes "/rpc") address (0, world))
