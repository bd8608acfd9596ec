-- ===== src/Rpc/Run.antt =====
-- The whole node: any sequence of requests, messages, connections and disconnections.
use devinsidercoin.Prelude.{
  ℕ, ◌+◌, ◌≤◌, ◌<◌, ◌^◌, refl, Bool-cases, Option, inl, inr, List, [], ◌∷◌, ◌++◌, length, arith,
  Str,
}
use devinsidercoin.Prelude.Float64.{Float64}
use devinsidercoin.Block.{stake, unstake}
use devinsidercoin.Storage.Database.{Bolt, IsBolt}
use devinsidercoin.Storage.Encoding.{Json, IsJson}
use devinsidercoin.Storage.{get_block_count}
use devinsidercoin.Node.{Wire, Sent}
use devinsidercoin.Node.Run.{Event, handle_event, IsSane, IsStep, handle_event-IsStep}
use devinsidercoin.Wallet.{WalletJson, Ed25519}
use devinsidercoin.Rpc.{
  Server, Request, Route, rpc, wallet_create, wallet_list, wallet_backup, wallet_restore,
  wallet_send, wallet_balance, wallet_transactions, wallet_stake, wallet_unstake, chain_info,
  chain_block, unknown_path, RpcJson, Ambient, answer, empty_ok, is_options,
}
use devinsidercoin.Rpc.Wallets.{handle_wallet_stake, handle_wallet_unstake}
use devinsidercoin.Rpc.Serve.{serve, handle_route}
use devinsidercoin.Rpc.Steps.{
  unchanged-IsStep, handle_wallet_send-IsStep, handle_staking-IsStep, handle_wallet_create-IsStep,
  handle_wallet_restore-IsStep, handle_rpc-IsStep,
}
use devinsidercoin.Rpc.Queries.{IsReadOnly, handle_route-IsUnchanged}

-- What reaches the node: something from a peer, or a request.
pub data Input : Type 0 where
  from_peer : Event → Input
  from_client : Request → Ambient → Input

module _ (sum256 : List ℕ → List ℕ) (base58 : List ℕ → Str) (ed : Ed25519)
    (write_file : Option (List ℕ) → List ℕ → Option (List ℕ)) {F : Type 0} ⦃fl : Float64 F⦄
    ⦃js : Json F⦄ ⦃w : Wire F⦄ ⦃rj : RpcJson F⦄ ⦃wj : WalletJson⦄ {D : Type 0} ⦃db : Bolt D⦄ where
  unfoldable pub handle_input : Server F D → Input → Server F D × Sent
  handle_input s (from_peer e) =
      let r = handle_event sum256 s.node e in (record s { node = r.0 }, r.1)
  handle_input s (from_client r env) =
      let o = serve sum256 base58 ed write_file s r env in (o.1, o.2)

  -- The server after the inputs, and all that it has sent to the peers.
  unfoldable pub handle_inputs : Server F D → List Input → Server F D × Sent
  unfolding handle_input
  handle_inputs s [] = (s, [])
  handle_inputs s (i ∷ inputs) =
      let now = handle_input s i in
      let later = handle_inputs now.0 inputs in (later.0, now.1 ++ later.1)

  module _ (laws : IsBolt D) (json : IsJson F) where
    reading :
        (route : Route) (s : Server F D) (r : Request) (env : Ambient)
        → IsSane sum256 s.node
        → IsReadOnly F route r
        → IsStep sum256 s.node (handle_route sum256 base58 ed write_file route s r env).1.node
    reading route s r env sane h =
        unchanged-IsStep sum256 s (handle_route sum256 base58 ed write_file route s r env) sane
          (handle_route-IsUnchanged sum256 base58 ed write_file route s r env h)

    handle_route-IsStep :
        (route : Route) (s : Server F D) (r : Request) (env : Ambient)
        → get_block_count s.node.chain.store < 2 ^ 63
        → IsSane sum256 s.node
        → IsStep sum256 s.node (handle_route sum256 base58 ed write_file route s r env).1.node
    unfolding handle_route handle_wallet_stake handle_wallet_unstake
    handle_route-IsStep rpc s r env room sane =
        handle_rpc-IsStep sum256 laws json s r.body env room sane
    handle_route-IsStep wallet_create s r env room sane =
        handle_wallet_create-IsStep sum256 base58 write_file s r env sane
    handle_route-IsStep wallet_restore s r env room sane =
        handle_wallet_restore-IsStep sum256 base58 write_file s r sane
    handle_route-IsStep wallet_send s r env room sane =
        handle_wallet_send-IsStep sum256 ed s r env sane
    handle_route-IsStep wallet_stake s r env room sane =
        handle_staking-IsStep sum256 ed stake s r env sane
    handle_route-IsStep wallet_unstake s r env room sane =
        handle_staking-IsStep sum256 ed unstake s r env sane
    handle_route-IsStep wallet_list s r env room sane = reading wallet_list s r env sane tt
    handle_route-IsStep wallet_backup s r env room sane = reading wallet_backup s r env sane tt
    handle_route-IsStep wallet_balance s r env room sane = reading wallet_balance s r env sane tt
    handle_route-IsStep wallet_transactions s r env room sane =
        reading wallet_transactions s r env sane tt
    handle_route-IsStep chain_info s r env room sane = reading chain_info s r env sane tt
    handle_route-IsStep chain_block s r env room sane = reading chain_block s r env sane tt
    handle_route-IsStep unknown_path s r env room sane = reading unknown_path s r env sane tt

    serve-IsStep :
        (s : Server F D) (r : Request) (env : Ambient)
        → get_block_count s.node.chain.store < 2 ^ 63
        → IsSane sum256 s.node
        → IsStep sum256 s.node (serve sum256 base58 ed write_file s r env).1.node
    unfolding serve
    serve-IsStep s r env room sane = elim (Bool-cases (is_options r)) [
      | inl e ↦ rw (e, serve) (unchanged-IsStep sum256 s (answer s empty_ok) sane (refl, refl))
      | inr e ↦ rw (e, serve) (handle_route-IsStep r.route s r env room sane)
    ]

    handle_input-IsStep :
        (s : Server F D) (i : Input)
        → get_block_count s.node.chain.store < 2 ^ 63
        → IsSane sum256 s.node
        → IsStep sum256 s.node (handle_input s i).0.node
    unfolding handle_input
    handle_input-IsStep s (from_peer e) room sane =
        handle_event-IsStep sum256 laws json s.node e room sane
    handle_input-IsStep s (from_client r env) room sane = serve-IsStep s r env room sane

    -- Under bbolt's laws, whatever reaches a node whose blocks form a chain and whose peers are
    -- distinct, from peers and from clients, in any order, its blocks still form a chain and its
    -- peers are still distinct, if decoded blocks survive their encoding and the blocks and the
    -- inputs are together no more than 2^63.
    pub handle_inputs-IsSane :
        (s : Server F D) (inputs : List Input)
        → get_block_count s.node.chain.store + length inputs ≤ 2 ^ 63
        → IsSane sum256 s.node
        → IsSane sum256 (handle_inputs s inputs).0.node
    unfolding handle_inputs
    handle_inputs-IsSane s [] room sane = sane
    handle_inputs-IsSane s (i ∷ inputs) room sane =
        let step = handle_input-IsStep s i (omega arith) sane in
        handle_inputs-IsSane (handle_input s i).0 inputs (omega (arith, step.grown.count))
          (record { linked = step.grown.linked; peers = step.peers })
