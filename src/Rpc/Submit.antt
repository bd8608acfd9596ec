-- ===== src/Rpc/Submit.antt =====
-- internal/rpc/server.go with cmd/dvcminer/main.go: the way of a block from the template through the
-- miner to the chain.
use devinsidercoin.Prelude.{
  ℕ, ◌+◌, ◌-◌, ◌≤◌, ◌<◌, ◌^◌, ◌≡◌, refl, ap, sym, ◌∙◌, true, Option, none, some, inl, inr,
  Option-cases, List, arith, length, All, Str,
}
use devinsidercoin.Prelude.Int.{ℤ}
use devinsidercoin.Prelude.Float64.{Float64}
use devinsidercoin.Bytes.{IsByte}
use devinsidercoin.Block.{Block, BlockHeader, sha256d}
use devinsidercoin.Block
use devinsidercoin.Storage.Database.{Bolt, IsBolt}
use devinsidercoin.Storage.Encoding.{Json}
use devinsidercoin.Storage.{get_block_count}
use devinsidercoin.Storage.Total.{IsStorable}
use devinsidercoin.Chain.{Blockchain, BlockError, block_commit, add_block}
use devinsidercoin.Chain.Validate.{IsNext}
use devinsidercoin.Chain.Accept.{IsAccepted, add_block-IsAccepted}
use devinsidercoin.Chain.Template.{create_block_template}
use devinsidercoin.Chain.Template.Usable.{IsUsable}
use devinsidercoin.Chain.Template.Valid.{mined, create_block_template-IsNext}
use devinsidercoin.Miner.{mine, mine_block}
use devinsidercoin.Miner.Loop.{IsFirst, mine-IsFirst}
use devinsidercoin.Rpc.{Server, RpcRequest, RpcJson, rpc_result, accepted}
use devinsidercoin.Rpc.Mining.{submitted, rpc_submit_block}

-- What the miner makes of a template is the template with a nonce, and its hash meets the bits.
pub mine-mined :
    (sum256 : List ℕ → List ℕ) {F : Type 0} (t : Block F) (h : BlockHeader) (hash : Str)
    → IsFirst sum256 t.header 0 (2 ^ 64 - 1) (some (h, hash))
    → record t { header = h; hash = hash } ≡ mined sum256 t h.nonce
mine-mined sum256 t h hash first =
    rw (first.3) (ap (λ g. record t { header = g; hash = Block.compute_hash sum256 g }) first.2)

module _ (sum256 : List ℕ → List ℕ) {F : Type 0} ⦃fl : Float64 F⦄ ⦃js : Json F⦄ ⦃rj : RpcJson F⦄
    {D : Type 0} ⦃db : Bolt D⦄ where
  submitted-accepted :
      (s : Server F D) (id : List ℕ) (block : Block F) (r : Option BlockError × Blockchain F D)
      → IsAccepted s.node.chain block r
      → ((submitted s id block r).0 ≡ rpc_result id (accepted block.hash block.header.height))
        × (get_block_count (submitted s id block r).1.node.chain.store
            ≡ get_block_count s.node.chain.store + 1)
        × ((submitted s id block r).1.node.chain.last_block ≡ some block)
  unfolding submitted
  submitted-accepted s id block (none, chain) a = (refl, a.count, a.last_block)
  submitted-accepted s id block (some e, chain) a = absurd (cc a.no_error)

  -- What the miner makes of a template of a usable configuration is the next block, if its encoding is
  -- within the limit of size.
  mine_block-IsNext :
      ((bytes : List ℕ) → (length (sum256 bytes) ≡ 32) × All IsByte (sum256 bytes))
      → (bc : Blockchain F D) (seconds : ℕ) (miner : Str) (now pos_now header_now : ℤ)
        (t block : Block F)
      → IsUsable bc.config seconds
      → create_block_template sum256 bc miner now pos_now header_now ≡ some t
      → mine_block sum256 t ≡ some block
      → length (js.marshal_block block) ≤ bc.config.max_block_size
      → IsNext sum256 bc block
  unfolding mine_block
  mine_block-IsNext digest bc seconds miner now pos_now header_now t block ok made found size =
      elim (Option-cases (mine sum256 t.header)) [
        | inl e ↦ absurd (cc (rw (e, mine_block) at found))
        | inr ((h, hash), e) ↦
            let first : IsFirst sum256 t.header 0 (2 ^ 64 - 1) (some (h, hash)) =
              rw e at (mine-IsFirst sum256 t.header digest) in
            let given : record t { header = h; hash = hash } ≡ block =
              cc (rw (e, mine_block) at found) in
            let same : mined sum256 t h.nonce ≡ block =
              sym (mine-mined sum256 t h hash first) ∙ given in
            rw (← same) (
              create_block_template-IsNext sum256 bc seconds h.nonce miner now pos_now header_now t
                ok made first.4 (rw (← same) at size))
      ]

  -- Under bbolt's laws and with a SHA-256 of 32 bytes: what the miner makes of a template of a usable
  -- configuration is accepted when it is submitted unchanged to a server whose chain is the one of the
  -- template; the chain then has one block more and this block is its last. The block is to be within
  -- the limit of size and bbolt's limits, the count within an int64, and the file is to be written.
  pub rpc_submit_block-mined :
      IsBolt D
      → ((bytes : List ℕ) → (length (sum256 bytes) ≡ 32) × All IsByte (sum256 bytes))
      → (s : Server F D) (seconds : ℕ) (miner : Str) (now pos_now header_now : ℤ)
        (t block : Block F) (req : RpcRequest)
      → IsUsable s.node.chain.config seconds
      → create_block_template sum256 s.node.chain miner now pos_now header_now ≡ some t
      → mine_block sum256 t ≡ some block
      → js.unmarshal_block req.params ≡ some block
      → length (js.marshal_block block) ≤ s.node.chain.config.max_block_size
      → get_block_count s.node.chain.store < 2 ^ 63
      → IsStorable (block_commit s.node.chain block)
      → ((after : D) → db.flush after ≡ true)
      → ((rpc_submit_block sum256 s req).0
          ≡ rpc_result req.id (accepted block.hash block.header.height))
        × (get_block_count (rpc_submit_block sum256 s req).1.node.chain.store
            ≡ get_block_count s.node.chain.store + 1)
        × ((rpc_submit_block sum256 s req).1.node.chain.last_block ≡ some block)
  unfolding rpc_submit_block
  rpc_submit_block-mined laws digest s seconds miner now pos_now header_now t block req ok made
        found sent size room fit flushed =
      let next =
        mine_block-IsNext digest s.node.chain seconds miner now pos_now header_now t block ok made
          found size in
      rw (sent, rpc_submit_block)
        (submitted-accepted s req.id block (add_block sum256 s.node.chain block) (
          add_block-IsAccepted laws sum256 s.node.chain block (omega (arith, next.height)) next fit
            flushed))
