-- ===== src/Miner/Rounds.antt =====
-- cmd/dvcminer/main.go with internal/rpc/server.go: what the miner counts in its rounds.
use devinsidercoin.Prelude.{
  ℕ, zero, suc, ◌+◌, ◌≤◌, ◌<◌, ◌^◌, ◌≡◌, refl, ap, ◌⊎◌, inl, inr, Option, Option-cases, List, arith,
  Str, codes,
}
use devinsidercoin.Prelude.Float64.{Float64}
use devinsidercoin.Storage.Database.{Bolt, IsBolt}
use devinsidercoin.Storage.Encoding.{Json}
use devinsidercoin.Storage.{get_block_count}
use devinsidercoin.Miner.Client.{
  RawBlock, MinerJson, MinerError, verdict_of, template_of, get_block_template, submit_block,
  search_nonce, tally, finish_round, with_template, miner_round, miner_rounds,
}
use devinsidercoin.Miner.Posts.{
  IsHttp, Site, post_rpc, blocks_of, Agrees, template-server, submit-Agrees,
}
use devinsidercoin.Rpc.{Server, RpcJson, Ambient, Response}
use devinsidercoin.Rpc.Mining.{handle_rpc}

module _ {F D : Type 0} ⦃db : Bolt D⦄ where
  -- From one state of the miner and the node to a later one, as many blocks have come as the miner has
  -- counted, and at most `n`.
  pub record IsCounted (n : ℕ) (before after : ℕ × Site F D) : Type 0 where
    pub equal : blocks_of after.1 + before.0 ≡ blocks_of before.1 + after.0
    pub bounded : after.0 ≤ before.0 + n

  unchanged-IsCounted :
      (n : ℕ) (before after : ℕ × Site F D)
      → after.0 ≡ before.0
      → blocks_of after.1 ≡ blocks_of before.1
      → IsCounted n before after
  unchanged-IsCounted n before after e f = record { equal = omega arith; bounded = omega arith }

module _ (sum256 : List ℕ → List ℕ) {F : Type 0} ⦃fl : Float64 F⦄ ⦃js : Json F⦄ ⦃rj : RpcJson F⦄
    ⦃mj : MinerJson⦄ {D : Type 0} ⦃db : Bolt D⦄ (render : Response F → Option (List ℕ))
    (http : IsHttp render) (laws : IsBolt D) (ambient : ℕ → Ambient) (url address : Str) where
  tally-IsCounted :
      (total k : ℕ) (site : Site F D) (r : Response F) (s : Server F D)
      → total + 1 < 2 ^ 64
      → Agrees render (blocks_of site) (r, s)
      → IsCounted 1 (total, site) (tally total (verdict_of (render r), (s, k)))
  unfolding tally
  tally-IsCounted total k site r s room (inl (seen, count)) =
      rw seen (record { equal = omega arith; bounded = omega arith })
  tally-IsCounted total k site r s room (inr (e, seen, count)) =
      rw seen (record { equal = omega arith; bounded = omega arith })

  finish_round-IsCounted :
      (total : ℕ) (t : RawBlock) (site : Site F D)
      → total + 1 < 2 ^ 64
      → blocks_of site < 2 ^ 63
      → IsCounted 1
          (total, site)
          (finish_round (post_rpc sum256 render ambient) sum256 url total t site)
  unfolding finish_round submit_block
  finish_round-IsCounted total t site room below = elim (Option-cases (search_nonce sum256 t)) [
    | inl e ↦ rw (e, finish_round) (record { equal = omega arith; bounded = omega arith })
    | inr (block, e) ↦
        let params = mj.marshal_raw_block block in
        let o =
          handle_rpc sum256 site.0 (mj.marshal_request (codes "submitblock") params 2)
            (ambient site.1) in
        rw (e, finish_round)
          (tally-IsCounted total (site.1 + 1) site o.0 o.1 room
            (submit-Agrees sum256 render http laws site.0 params (ambient site.1) below))
  ]

  with_template-IsCounted :
      (total : ℕ) (got : MinerError ⊎ RawBlock) (site : Site F D)
      → total + 1 < 2 ^ 64
      → blocks_of site < 2 ^ 63
      → IsCounted 1
          (total, site)
          (with_template (post_rpc sum256 render ambient) sum256 url total (got, site))
  unfolding with_template
  with_template-IsCounted total (inl e) site room below = record {
    equal = omega arith;
    bounded = omega arith;
  }
  with_template-IsCounted total (inr t) site room below =
      finish_round-IsCounted total t site room below

  miner_round-IsCounted :
      (total : ℕ) (site : Site F D)
      → total + 1 < 2 ^ 64
      → blocks_of site < 2 ^ 63
      → IsCounted 1
          (total, site)
          (miner_round (post_rpc sum256 render ambient) sum256 url address (total, site))
  unfolding miner_round get_block_template
  miner_round-IsCounted total (s, k) room below =
      let params = mj.marshal_address address in
      let o =
        handle_rpc sum256 s (mj.marshal_request (codes "getblocktemplate") params 1) (ambient k) in
      let same : o.1 ≡ s = template-server sum256 render http s params (ambient k) in
      let next =
        with_template-IsCounted total (template_of (render o.0)) (o.1, k + 1) room
          (rw same below) in
      let moved : blocks_of (o.1, k + 1) ≡ blocks_of (s, k) =
        ap (λ (x : Server F D). get_block_count x.node.chain.store) same in
      record { equal = omega (arith, moved, next.equal); bounded = next.bounded }

  -- Under bbolt's laws, and if the node's answers reach the miner: over any number of
  -- rounds of the miner's loop, in which nothing else reaches the node, the number of the node's blocks
  -- grows by exactly as much as `totalMined`, and by at most one in a round. The blocks and the rounds
  -- are together no more than 2^63, and the total stays below 2^64.
  pub miner_rounds-IsCounted :
      (n total : ℕ) (site : Site F D)
      → total + n < 2 ^ 64
      → blocks_of site + n ≤ 2 ^ 63
      → IsCounted n
          (total, site)
          (miner_rounds (post_rpc sum256 render ambient) sum256 n url address (total, site))
  unfolding miner_rounds
  miner_rounds-IsCounted zero total site room below = record { equal = refl; bounded = omega arith }
  miner_rounds-IsCounted (suc n) total site room below =
      let first = miner_round-IsCounted total site (omega arith) (omega arith) in
      let after = miner_round (post_rpc sum256 render ambient) sum256 url address (total, site) in
      let rest =
        miner_rounds-IsCounted n after.0 after.1 (omega (arith, first.bounded))
          (omega (arith, first.equal, first.bounded)) in
      record {
        equal = omega (arith, first.equal, rest.equal);
        bounded = omega (arith, first.bounded, rest.bounded);
      }
