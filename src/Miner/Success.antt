-- ===== src/Miner/Success.antt =====
-- cmd/dvcminer/main.go with internal/rpc/server.go: a round of the miner in which a nonce is found.
use devinsidercoin.Prelude.{
  ℕ, ◌+◌, ◌-◌, ◌%◌, ◌≤◌, ◌<◌, ◌^◌, ◌≡◌, refl, ap, ◌∙◌, true, false, Option, none, some, List, [],
  All, arith, length, Str, codes,
}
use devinsidercoin.Prelude.Float64.{Float64}
use devinsidercoin.Bytes.{IsByte}
use devinsidercoin.Block.{Block, BlockHeader}
use devinsidercoin.Storage.Database.{Bolt, IsBolt}
use devinsidercoin.Storage.Encoding.{Json}
use devinsidercoin.Storage.{get_block_count}
use devinsidercoin.Storage.Total.{IsStorable}
use devinsidercoin.Chain.{block_commit}
use devinsidercoin.Chain.Template.{create_block_template}
use devinsidercoin.Chain.Template.Usable.{IsUsable}
use devinsidercoin.Chain.Template.Valid.{mined}
use devinsidercoin.Miner.{mine, mine_block}
use devinsidercoin.Miner.Loop.{mine_found, Passes}
use devinsidercoin.Miner.Client.{
  RawBlock, MinerJson, verdict_of, template_of, get_block_template, submit_block, search_nonce,
  tally, finish_round, with_template, miner_round,
}
use devinsidercoin.Miner.Posts.{IsHttp, Site, post_rpc, blocks_of, result-verdict}
use devinsidercoin.Rpc.{
  Server, RpcRequest, RpcJson, Ambient, Response, template, rpc_result, is_blank,
}
use devinsidercoin.Rpc.Mining.{rpc_get_block_template, rpc_submit_block, handle_method, handle_rpc}
use devinsidercoin.Rpc.Submit.{mine-mined, rpc_submit_block-mined}

module _ {F : Type 0} ⦃js : Json F⦄ ⦃rj : RpcJson F⦄ ⦃mj : MinerJson⦄ where
  -- What the two sides rely on of the JSON of one exchange: the address arrives, and the template comes
  -- back with the header and the hash that the miner has put into it and with its own transactions.
  pub record IsExchange (render : Response F → Option (List ℕ)) (address : Str) (t : Block F)
      : Type 0 where
    pub asked : RpcRequest
    pub asked_as :
        rj.unmarshal_request
          (mj.marshal_request (codes "getblocktemplate") (mj.marshal_address address) 1)
        ≡ some asked
    pub names : rj.fill_miner_address asked.params ≡ address
    pub same_header :
        (body : List ℕ)
        → render (rpc_result asked.id (template t)) ≡ some body
        → (mj.fill_raw_block (mj.fill_reply body).result).header ≡ t.header
    pub carried :
        (body : List ℕ) (h : BlockHeader) (hash : Str)
        → render (rpc_result asked.id (template t)) ≡ some body
        → h ≡ record t.header { nonce = h.nonce }
        → h.nonce < 2 ^ 64
        → let raw = mj.fill_raw_block (mj.fill_reply body).result in
          let block = mj.marshal_raw_block (record raw { header = h; hash = hash }) in
          (req : RpcRequest) × (rj.unmarshal_request
              (mj.marshal_request (codes "submitblock") block 2)
            ≡ some req)
          × (js.unmarshal_block req.params ≡ some (record t { header = h; hash = hash }))

module _ {F D : Type 0} ⦃db : Bolt D⦄ where
  -- One block more, counted by the miner: the template with a nonce.
  pub record IsMined (sum256 : List ℕ → List ℕ) (t : Block F) (before after : ℕ × Site F D)
      : Type 0 where
    pub total : after.0 ≡ (before.0 + 1) % 2 ^ 64
    pub count : blocks_of after.1 ≡ blocks_of before.1 + 1
    pub nonce : ℕ
    pub last_block : after.1.0.node.chain.last_block ≡ some (mined sum256 t nonce)

module _ (sum256 : List ℕ → List ℕ) {F : Type 0} ⦃fl : Float64 F⦄ ⦃js : Json F⦄ ⦃rj : RpcJson F⦄
    ⦃mj : MinerJson⦄ {D : Type 0} ⦃db : Bolt D⦄ (render : Response F → Option (List ℕ))
    (http : IsHttp render) where
  template-answer :
      (s : Server F D) (address : Str) (env : Ambient) (t : Block F)
      → (x : IsExchange render address t) → is_blank address ≡ false
      → create_block_template sum256 s.node.chain address env.now env.second_now env.third_now
        ≡ some t
      → handle_rpc sum256 s
          (mj.marshal_request (codes "getblocktemplate") (mj.marshal_address address) 1)
          env
        ≡ (rpc_result x.asked.id (template t), s, [])
  unfolding handle_rpc
  template-answer s address env t x given made =
      let method = http.template_method (mj.marshal_address address) x.asked x.asked_as in
      rw (x.asked_as, handle_rpc)
        (rw method (unfold handle_method rpc_get_block_template in rw (x.names, given, made) refl))

  submit-answer :
      (s : Server F D) (params : List ℕ) (req : RpcRequest) (env : Ambient)
      → rj.unmarshal_request (mj.marshal_request (codes "submitblock") params 2) ≡ some req
      → handle_rpc sum256 s (mj.marshal_request (codes "submitblock") params 2) env
        ≡ rpc_submit_block sum256 s req
  unfolding handle_rpc
  submit-answer s params req env read =
      let method = http.submit_method params req read in
      rw (read, handle_rpc) (rw method (unfold handle_method in refl))

  module _ (ambient : ℕ → Ambient) (url address : Str) where
    finish_round-found :
        (total k : ℕ) (s : Server F D) (raw : RawBlock) (h : BlockHeader) (hash : Str)
        (req : RpcRequest)
        → mine sum256 raw.header ≡ some (h, hash)
        → rj.unmarshal_request (
            mj.marshal_request
              (codes "submitblock")
              (mj.marshal_raw_block (record raw { header = h; hash = hash }))
              2)
          ≡ some req
        → finish_round (post_rpc sum256 render ambient) sum256 url total raw (s, k)
          ≡ tally total (
            verdict_of (render (rpc_submit_block sum256 s req).0),
            ((rpc_submit_block sum256 s req).1, k + 1),
          )
    unfolding finish_round submit_block search_nonce
    finish_round-found total k s raw h hash req found read =
        let params = mj.marshal_raw_block (record raw { header = h; hash = hash }) in
        let answered = submit-answer s params req (ambient k) read in
        let block : search_nonce sum256 raw ≡ some (record raw { header = h; hash = hash }) =
          rw (found, search_nonce) refl in
        rw (block, finish_round) (rw (answered, tally) refl)

    -- What a round comes to if the node gives a template and the loop finds a nonce.
    round-found :
        (total k : ℕ) (s : Server F D) (t : Block F) (x : IsExchange render address t)
        (body : List ℕ)
        → (h : BlockHeader) (hash : Str) (req : RpcRequest) → is_blank address ≡ false
        → create_block_template sum256 s.node.chain address
            (ambient k).now
            (ambient k).second_now
            (ambient k).third_now
          ≡ some t
        → render (rpc_result x.asked.id (template t)) ≡ some body
        → (mj.fill_reply body).error ≡ none
        → mine sum256 t.header ≡ some (h, hash)
        → rj.unmarshal_request (
            mj.marshal_request
              (codes "submitblock")
              (mj.marshal_raw_block (record (mj.fill_raw_block (mj.fill_reply body).result) {
                header = h;
                hash = hash;
              }))
              2)
          ≡ some req
        → miner_round (post_rpc sum256 render ambient) sum256 url address (total, (s, k))
          ≡ tally total (
            verdict_of (render (rpc_submit_block sum256 s req).0),
            ((rpc_submit_block sum256 s req).1, k + 1 + 1),
          )
    unfolding miner_round get_block_template template_of with_template
    round-found total k s t x body h hash req given made rendered fine found read =
        let answered = template-answer s address (ambient k) t x given made in
        let same = x.same_header body rendered in
        rw answered (
          rw (rendered, template_of)
            (rw fine (
              finish_round-found total (k + 1) s (mj.fill_raw_block (mj.fill_reply body).result) h
                hash req (ap (mine sum256) same ∙ found) read)))

    -- Under bbolt's laws, with a SHA-256 of 32 bytes, and if the requests and the answers arrive as they
    -- were sent: a round of the miner whose address is not blank adds one block to the node's chain, the
    -- template with a nonce, and counts it. Some nonce below 2^64 - 1 is to pass, the configuration is to
    -- be usable, the block is to be within the limit of size and bbolt's limits whatever the nonce, the
    -- count within an int64, the file is to be written, and nothing else reaches the node meanwhile.
    pub miner_round-mined :
        IsBolt D
        → ((bytes : List ℕ) → (length (sum256 bytes) ≡ 32) × All IsByte (sum256 bytes))
        → (total k seconds nonce : ℕ) (s : Server F D) (t : Block F) → IsExchange render address t
        → is_blank address ≡ false
        → IsUsable s.node.chain.config seconds
        → create_block_template sum256 s.node.chain address
            (ambient k).now
            (ambient k).second_now
            (ambient k).third_now
          ≡ some t
        → nonce < 2 ^ 64 - 1
        → Passes sum256 t.header nonce
        → ((n : ℕ)
            → n < 2 ^ 64
            → length (js.marshal_block (mined sum256 t n)) ≤ s.node.chain.config.max_block_size)
        → get_block_count s.node.chain.store < 2 ^ 63
        → ((n : ℕ) → n < 2 ^ 64 → IsStorable (block_commit s.node.chain (mined sum256 t n)))
        → ((after : D) → db.flush after ≡ true)
        → IsMined sum256 t
            (total, (s, k))
            (miner_round (post_rpc sum256 render ambient) sum256 url address (total, (s, k)))
    unfolding tally mine_block
    miner_round-mined laws digest total k seconds nonce s t x given ok made lt passes size room fit
          flushed =
        let ((h, hash), found, first) = mine_found sum256 digest t.header nonce lt passes in
        let (body, rendered, fine) = http.result_seen x.asked.id (template t) in
        let below : h.nonce < 2 ^ 64 = omega (arith, first.1) in
        let (req, read, sent) = x.carried body h hash rendered first.2 below in
        let same = mine-mined sum256 t h hash first in
        let done =
          rpc_submit_block-mined sum256 laws digest s seconds address (ambient k).now
            (ambient k).second_now (ambient k).third_now t (mined sum256 t h.nonce) req ok made
            (rw (found, mine_block) (ap some same)) (sent ∙ ap some same) (size h.nonce below) room
            (fit h.nonce below) flushed in
        let round = round-found total k s t x body h hash req given made rendered fine found read in
        let counted : verdict_of (render (rpc_submit_block sum256 s req).0) ≡ none =
          ap (λ r. verdict_of (render r)) done.0 ∙ result-verdict render http req.id _ in
        rw round (
          rw (counted, tally)
            (record { total = refl; count = done.1; nonce = h.nonce; last_block = done.2 }))
