-- ===== src/Miner/Posts.antt =====
-- cmd/dvcminer/main.go with internal/rpc/server.go: what the miner posts to a node. A request that the
-- miner posts is handled by the node's `handleRPC`; nothing else reaches the node meanwhile.
use devinsidercoin.Prelude.{
  ℕ, ◌+◌, ◌<◌, ◌^◌, ◌≡◌, refl, ◌⊎◌, inl, inr, Bool-cases, Option, none, some, Option-cases, List,
  Str, codes,
}
use devinsidercoin.Prelude.Float64.{Float64}
use devinsidercoin.Block.{Block}
use devinsidercoin.Storage.Database.{Bolt, IsBolt}
use devinsidercoin.Storage.Encoding.{Json}
use devinsidercoin.Storage.{get_block_count}
use devinsidercoin.Chain.{Blockchain, BlockError, add_block}
use devinsidercoin.Chain.Growth.{counted, add_block-count}
use devinsidercoin.Chain.Template.{create_block_template}
use devinsidercoin.Miner.Client.{MinerJson, MinerError, verdict_of}
use devinsidercoin.Rpc.{
  Server, getblocktemplate, submitblock, RpcRequest, RpcJson, RpcError, RpcResult, Ambient,
  Response, rpc_result, rpc_error, block_refused, is_blank,
}
use devinsidercoin.Rpc.Mining.{
  submitted, rpc_get_block_template, rpc_submit_block, handle_method, handle_rpc,
}

-- The node, and the number of requests that it has answered.
abbrev pub Site : Type 0 → Type 0 → Type 0
Site F D = Server F D × ℕ

module _ {F D : Type 0} ⦃db : Bolt D⦄ where
  abbrev pub blocks_of : Site F D → ℕ
  blocks_of site = get_block_count site.0.node.chain.store

module _ {F D : Type 0} ⦃db : Bolt D⦄ ⦃mj : MinerJson⦄ where
  -- Either there is no error and one block more, or an error and no block more.
  abbrev pub Agrees : (Response F → Option (List ℕ)) → ℕ → Response F × Server F D → Type 0
  Agrees render count (r, s) =
      ((verdict_of (render r) ≡ none) × (get_block_count s.node.chain.store ≡ count + 1))
      ⊎ ((e : MinerError) × (verdict_of (render r) ≡ some e)
          × (get_block_count s.node.chain.store ≡ count))

module _ {F : Type 0} ⦃rj : RpcJson F⦄ ⦃mj : MinerJson⦄ where
  -- What the two sides rely on of net/http and encoding/json: a request is read with the method that it
  -- was written with, and an answer arrives with its error or without one.
  pub record IsHttp (render : Response F → Option (List ℕ)) : Type 0 where
    pub template_method :
        (params : List ℕ) (req : RpcRequest)
        → rj.unmarshal_request (mj.marshal_request (codes "getblocktemplate") params 1) ≡ some req
        → req.method ≡ getblocktemplate
    pub submit_method :
        (params : List ℕ) (req : RpcRequest)
        → rj.unmarshal_request (mj.marshal_request (codes "submitblock") params 2) ≡ some req
        → req.method ≡ submitblock
    pub error_seen :
        (id : List ℕ) (e : RpcError)
        → (body : List ℕ) × (render (rpc_error id e) ≡ some body)
          × (text : List ℕ) × ((mj.fill_reply body).error ≡ some text)
    pub result_seen :
        (id : List ℕ) (r : RpcResult F)
        → (body : List ℕ) × (render (rpc_result id r) ≡ some body)
          × ((mj.fill_reply body).error ≡ none)

module _ {F : Type 0} ⦃rj : RpcJson F⦄ ⦃mj : MinerJson⦄ (render : Response F → Option (List ℕ))
    (http : IsHttp render) where
  pub result-verdict :
      (id : List ℕ) (r : RpcResult F) → verdict_of (render (rpc_result id r)) ≡ none
  unfolding verdict_of
  result-verdict id r =
      let (body, sent, seen) = http.result_seen id r in rw (sent, verdict_of) (rw seen refl)

  error-verdict :
      (id : List ℕ) (e : RpcError)
      → (err : MinerError) × (verdict_of (render (rpc_error id e)) ≡ some err)
  unfolding verdict_of
  error-verdict id e =
      let (body, sent, text, seen) = http.error_seen id e in
      (MinerError.refused text, rw (sent, verdict_of) (rw seen refl))

module _ (sum256 : List ℕ → List ℕ) {F : Type 0} ⦃fl : Float64 F⦄ ⦃js : Json F⦄ ⦃rj : RpcJson F⦄
    ⦃mj : MinerJson⦄ {D : Type 0} ⦃db : Bolt D⦄ (render : Response F → Option (List ℕ)) where
  abbrev pub post_rpc : (ℕ → Ambient) → Str → List ℕ → Site F D → Option (List ℕ) × Site F D
  post_rpc ambient url body (s, k) =
      let o = handle_rpc sum256 s body (ambient k) in (render o.0, (o.1, k + 1))

  rpc_get_block_template-server :
      (s : Server F D) (req : RpcRequest) (env : Ambient)
      → (rpc_get_block_template sum256 s req env).1 ≡ s
  unfolding rpc_get_block_template
  rpc_get_block_template-server s req env =
      let miner = rj.fill_miner_address req.params in
      elim (Bool-cases (is_blank miner)) [
        | inl blank ↦ rw (blank, rpc_get_block_template) refl
        | inr given ↦
            elim (Option-cases (
              create_block_template sum256 s.node.chain miner env.now env.second_now
                env.third_now)) [
                  | inl e ↦ rw (given, rpc_get_block_template) (rw (e, rpc_get_block_template) refl)
                  | inr (t, e) ↦
                      rw (given, rpc_get_block_template) (rw (e, rpc_get_block_template) refl)
                ]
      ]

  module _ (http : IsHttp render) where
    -- Asking for a template changes nothing.
    pub template-server :
        (s : Server F D) (params : List ℕ) (env : Ambient)
        → (handle_rpc sum256 s (mj.marshal_request (codes "getblocktemplate") params 1) env).1 ≡ s
    unfolding handle_rpc
    template-server s params env =
        elim (Option-cases
          (rj.unmarshal_request (mj.marshal_request (codes "getblocktemplate") params 1))) [
            | inl e ↦ rw (e, handle_rpc) refl
            | inr (req, e) ↦
                let method = http.template_method params req e in
                rw (e, handle_rpc)
                  (rw method (unfold handle_method in rpc_get_block_template-server s req env))
          ]

    error-Agrees :
        (s : Server F D) (id : List ℕ) (e : RpcError)
        → Agrees render (get_block_count s.node.chain.store) (rpc_error id e, s)
    error-Agrees s id e = let (err, seen) = error-verdict render http id e in inr (err, seen, refl)

    submitted-Agrees :
        (s : Server F D) (id : List ℕ) (b : Block F) (r : Option BlockError × Blockchain F D)
        → get_block_count r.1.store ≡ counted r.0 (get_block_count s.node.chain.store)
        → Agrees render
            (get_block_count s.node.chain.store)
            ((submitted s id b r).0, (submitted s id b r).1)
    unfolding submitted
    submitted-Agrees s id b (none, chain) count = inl (result-verdict render http id _, count)
    submitted-Agrees s id b (some e, chain) count =
        let (err, seen) = error-verdict render http id (block_refused e) in inr (err, seen, count)

    pub submit-Agrees :
        IsBolt D
        → (s : Server F D) (params : List ℕ) (env : Ambient)
        → get_block_count s.node.chain.store < 2 ^ 63
        → let o = handle_rpc sum256 s (mj.marshal_request (codes "submitblock") params 2) env in
          Agrees render (get_block_count s.node.chain.store) (o.0, o.1)
    unfolding handle_rpc
    submit-Agrees laws s params env room =
        elim (Option-cases
          (rj.unmarshal_request (mj.marshal_request (codes "submitblock") params 2))) [
            | inl e ↦ rw (e, handle_rpc) (error-Agrees s _ _)
            | inr (req, e) ↦
                let method = http.submit_method params req e in
                rw (e, handle_rpc) (rw method (unfold handle_method in by_block req))
          ]
      where
        by_block :
            (req : RpcRequest)
            → Agrees render
                (get_block_count s.node.chain.store)
                ((rpc_submit_block sum256 s req).0, (rpc_submit_block sum256 s req).1)
        by_block req =
            unfold rpc_submit_block in
            elim (Option-cases (js.unmarshal_block req.params)) [
              | inl e ↦ rw (e, rpc_submit_block) (error-Agrees s _ _)
              | inr (b, e) ↦
                  rw (e, rpc_submit_block)
                    (submitted-Agrees s req.id b (add_block sum256 s.node.chain b)
                      (add_block-count sum256 laws s.node.chain b room))
            ]
