-- ===== src/Rpc/Mining.antt =====
-- internal/rpc/server.go: the JSON-RPC methods.
use devinsidercoin.Prelude.{ℕ, Option, none, some, List, [], length, Str, codes, if◌then◌else◌}
use devinsidercoin.Prelude.Float64.{Float64}
use devinsidercoin.Block.{Block}
use devinsidercoin.Stakes.{get_total_staked}
use devinsidercoin.Storage.Database.{Bolt}
use devinsidercoin.Storage.Encoding.{Json}
use devinsidercoin.Storage.{get_block_count}
use devinsidercoin.Chain.{Blockchain, BlockError, add_block}
use devinsidercoin.Chain.Template.{create_block_template}
use devinsidercoin.Node.{Node, broadcast_block, get_peer_count, get_peer_addresses}
use devinsidercoin.Rpc.{
  Server, RpcMethod, getblocktemplate, submitblock, getblockcount, getbestblockhash, getmininginfo,
  getpeerinfo, other_method, RpcRequest, RpcJson, Ambient, parse_error, miner_address_required,
  invalid_block, block_refused, unknown_method, MiningInfo, template, accepted, block_count,
  best_block_hash, mining_info, peer_info, rpc_result, rpc_error, aborted, Outcome, answer,
  is_blank,
}

module _ {F : Type 0} where
  -- `best.Hash`, or blank where there is no best block.
  abbrev pub hash_of : Option (Block F) → Str
  hash_of none = []
  hash_of (some best) = best.hash

  abbrev pub bits_of : Option (Block F) → ℕ
  bits_of none = 0
  bits_of (some best) = best.header.bits

module _ {F : Type 0} ⦃fl : Float64 F⦄ {D : Type 0} ⦃db : Bolt D⦄ where
  unfoldable pub get_mining_info : Node F D → MiningInfo F
  get_mining_info n = record {
    blocks = get_block_count n.chain.store;
    difficulty = bits_of n.chain.last_block;
    network_hash = 0;
    max_supply = n.chain.config.max_supply;
    total_minted = n.chain.total_minted;
    staked_total = get_total_staked n.chain.stakes;
    mempool_size = length n.chain.mempool;
    peers = get_peer_count n;
  }

module _ {F : Type 0} ⦃js : Json F⦄ {D : Type 0} where
  -- `rpcSubmitBlock` after `AddBlock`.
  unfoldable pub submitted :
      Server F D → List ℕ → Block F → Option BlockError × Blockchain F D → Outcome F D
  submitted s id block (some e, chain) =
      answer (record s { node = record s.node { chain = chain } }) (rpc_error id (block_refused e))
  submitted s id block (none, chain) =
      let node : Node F D = record s.node { chain = chain } in
      (
        rpc_result id (accepted block.hash block.header.height),
        record s { node = node },
        broadcast_block node block,
      )

module _ (sum256 : List ℕ → List ℕ) {F : Type 0} ⦃fl : Float64 F⦄ ⦃js : Json F⦄ ⦃rj : RpcJson F⦄
    {D : Type 0} ⦃db : Bolt D⦄ where
  unfoldable pub rpc_get_block_template : Server F D → RpcRequest → Ambient → Outcome F D
  unfolding is_blank
  rpc_get_block_template s req env =
      let miner = rj.fill_miner_address req.params in
      if is_blank miner
      then answer s (rpc_error req.id miner_address_required)
      else elim (create_block_template sum256 s.node.chain miner env.now env.second_now
          env.third_now) [
            | none ↦ answer s aborted
            | some block ↦ answer s (rpc_result req.id (template block))
          ]

  unfoldable pub rpc_submit_block : Server F D → RpcRequest → Outcome F D
  unfolding submitted
  rpc_submit_block s req = elim (js.unmarshal_block req.params) [
    | none ↦ answer s (rpc_error req.id invalid_block)
    | some block ↦ submitted s req.id block (add_block sum256 s.node.chain block)
  ]

  unfoldable pub handle_method : RpcMethod → Server F D → RpcRequest → Ambient → Outcome F D
  unfolding rpc_get_block_template rpc_submit_block get_mining_info get_peer_addresses
  handle_method getblocktemplate s req env = rpc_get_block_template s req env
  handle_method submitblock s req env = rpc_submit_block s req
  handle_method getblockcount s req env =
      answer s (rpc_result req.id (block_count (get_block_count s.node.chain.store)))
  handle_method getbestblockhash s req env =
      answer s (rpc_result req.id (best_block_hash (hash_of s.node.chain.last_block)))
  handle_method getmininginfo s req env =
      answer s (rpc_result req.id (mining_info (get_mining_info s.node)))
  handle_method getpeerinfo s req env =
      answer s (rpc_result req.id (peer_info (get_peer_addresses s.node)))
  handle_method (other_method name) s req env = answer s (rpc_error req.id (unknown_method name))

  unfoldable pub handle_rpc : Server F D → List ℕ → Ambient → Outcome F D
  unfolding handle_method
  handle_rpc s body env = elim (rj.unmarshal_request body) [
    | none ↦ answer s (rpc_error (codes "null") parse_error)
    | some req ↦ handle_method req.method s req env
  ]
