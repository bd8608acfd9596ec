-- ===== src/Rpc/Steps.antt =====
-- internal/rpc/server.go: what a request does to the chain and to the peers.
use devinsidercoin.Prelude.{
  ℕ, ◌<◌, ◌^◌, Bool-cases, Option, none, some, inl, inr, Option-cases, List, Str, ◌||◌,
}
use devinsidercoin.Prelude.Float64.{Float64}
use devinsidercoin.Block.{Block, Transaction, TxType}
use devinsidercoin.Storage.Database.{Bolt, IsBolt}
use devinsidercoin.Storage.Encoding.{Json, IsJson}
use devinsidercoin.Storage.{get_block_count}
use devinsidercoin.Chain.{Blockchain, BlockError, add_block}
use devinsidercoin.Chain.Mempool.{MempoolError, add_to_mempool}
use devinsidercoin.Chain.Growth.{IsGrown, same-IsGrown, mempool-IsGrown, add_block-IsGrown}
use devinsidercoin.Node.Run.{IsSane, IsStep}
use devinsidercoin.Wallet.{
  Added, added, not_added, map_panics, WalletManager, WalletJson, Ed25519, Signed, signature,
  not_found, sign_panics, create_wallet, restore,
}
use devinsidercoin.Rpc.{
  Server, Request, RpcMethod, getblocktemplate, submitblock, getblockcount, getbestblockhash,
  getmininginfo, getpeerinfo, other_method, RpcRequest, RpcJson, SendRequest, Ambient, RestResult,
  Outcome, is_post, is_blank,
}
use devinsidercoin.Rpc.Mining.{handle_rpc, handle_method, submitted, rpc_submit_block}
use devinsidercoin.Rpc.Wallets.{
  answer_created, answer_restored, queued, signed, is_incomplete, take_staking, handle_staking,
  handle_wallet_create, handle_wallet_restore, handle_wallet_send,
}
use devinsidercoin.Rpc.Queries.{IsReading, IsUnchanged, handle_method-IsUnchanged}

module _ (sum256 : List ℕ → List ℕ) {F : Type 0} ⦃fl : Float64 F⦄ ⦃js : Json F⦄ {D : Type 0}
    ⦃db : Bolt D⦄ where
  -- A node that has the same peers and at most one block more.
  pub unchanged-IsStep :
      (s : Server F D) (o : Outcome F D)
      → IsSane sum256 s.node
      → IsUnchanged s o
      → IsStep sum256 s.node o.1.node
  unchanged-IsStep s o sane same =
      rw same.0
        (record { grown = same-IsGrown sum256 s.node.chain sane.linked; peers = sane.peers })

  same-IsStep : (s : Server F D) → IsSane sum256 s.node → IsStep sum256 s.node s.node
  same-IsStep s sane = record {
    grown = same-IsGrown sum256 s.node.chain sane.linked;
    peers = sane.peers;
  }

  submitted-IsStep :
      (s : Server F D) (id : List ℕ) (b : Block F) (r : Option BlockError × Blockchain F D)
      → IsSane sum256 s.node
      → IsGrown sum256 s.node.chain r.1
      → IsStep sum256 s.node (submitted s id b r).1.node
  unfolding submitted
  submitted-IsStep s id b (some e, chain) sane grown = record { grown = grown; peers = sane.peers }
  submitted-IsStep s id b (none, chain) sane grown = record { grown = grown; peers = sane.peers }

  queued-IsStep :
      (s : Server F D) (tx : Transaction F) (result : RestResult F)
      → IsSane sum256 s.node
      → IsStep sum256 s.node (queued s tx result (add_to_mempool s.node.chain tx)).1.node
  queued-IsStep s tx result sane =
      cases (add_to_mempool s.node.chain tx) (mempool-IsGrown sum256 s.node.chain tx sane.linked)
    where
      cases :
          (r : Option MempoolError × Blockchain F D)
          → IsGrown sum256 s.node.chain r.1
          → IsStep sum256 s.node (queued s tx result r).1.node
      cases (some e, chain) grown = record { grown = grown; peers = sane.peers }
      cases (none, chain) grown = record { grown = grown; peers = sane.peers }

module _ (sum256 : List ℕ → List ℕ) (ed : Ed25519) {F : Type 0} ⦃fl : Float64 F⦄ ⦃js : Json F⦄
    ⦃rj : RpcJson F⦄ {D : Type 0} ⦃db : Bolt D⦄ where
  signed-IsStep :
      (s : Server F D) (req : SendRequest F) (env : Ambient) (r : Signed)
      → IsSane sum256 s.node
      → IsStep sum256 s.node (signed sum256 s req env.second_now r).1.node
  unfolding signed
  signed-IsStep s req env not_found sane = same-IsStep sum256 s sane
  signed-IsStep s req env sign_panics sane = same-IsStep sum256 s sane
  signed-IsStep s req env (signature sig) sane = queued-IsStep sum256 s _ _ sane

  pub handle_wallet_send-IsStep :
      (s : Server F D) (r : Request) (env : Ambient)
      → IsSane sum256 s.node
      → IsStep sum256 s.node (handle_wallet_send sum256 ed s r env).1.node
  unfolding handle_wallet_send
  handle_wallet_send-IsStep s r env sane =
      let same = same-IsStep sum256 s sane in
      elim (Bool-cases (is_post r)) [
        | inr e ↦ rw (e, handle_wallet_send) same
        | inl e ↦ elim (Option-cases (rj.unmarshal_send r.body)) [
          | inl bad ↦ rw (e, bad, handle_wallet_send) same
          | inr (req, good) ↦ elim (Bool-cases (is_incomplete req)) [
            | inl missing ↦ rw (e, good, missing, handle_wallet_send) same
            | inr complete ↦
                rw (e, good, complete, handle_wallet_send) (signed-IsStep s req env _ sane)
          ]
        ]
      ]

  pub handle_staking-IsStep :
      (type : TxType) (s : Server F D) (r : Request) (env : Ambient)
      → IsSane sum256 s.node
      → IsStep sum256 s.node (handle_staking sum256 type s r env).1.node
  unfolding handle_staking take_staking
  handle_staking-IsStep type s r env sane =
      let same = same-IsStep sum256 s sane in
      let req = rj.fill_stake r.body in
      elim (Bool-cases (is_post r)) [
        | inr e ↦ rw (e, handle_staking) same
        | inl e ↦ elim (Bool-cases (is_blank req.address || fl.le req.amount (fl.literal 0 0))) [
          | inl missing ↦ rw (e, missing, handle_staking, take_staking) same
          | inr complete ↦
              rw (e, complete, handle_staking, take_staking) (queued-IsStep sum256 s _ _ sane)
        ]
      ]

module _ (sum256 : List ℕ → List ℕ) (base58 : List ℕ → Str)
    (write_file : Option (List ℕ) → List ℕ → Option (List ℕ)) {F : Type 0} ⦃fl : Float64 F⦄
    ⦃js : Json F⦄ ⦃wj : WalletJson⦄ {D : Type 0} ⦃db : Bolt D⦄ where
  pub handle_wallet_create-IsStep :
      (s : Server F D) (r : Request) (env : Ambient)
      → IsSane sum256 s.node
      → IsStep sum256 s.node (handle_wallet_create write_file sum256 base58 s r env).1.node
  unfolding handle_wallet_create
  handle_wallet_create-IsStep s r env sane =
      let same = same-IsStep sum256 s sane in
      elim (Bool-cases (is_post r)) [
        | inr e ↦ rw (e, handle_wallet_create) same
        | inl e ↦
            rw (e, handle_wallet_create)
              (cases (create_wallet write_file sum256 base58 env.keys s.wallets))
      ]
    where
      cases : (r : Added × WalletManager) → IsStep sum256 s.node (answer_created s r).1.node
      cases (not_added, wm) = record {
        grown = same-IsGrown sum256 s.node.chain sane.linked;
        peers = sane.peers;
      }
      cases (map_panics, wm) = record {
        grown = same-IsGrown sum256 s.node.chain sane.linked;
        peers = sane.peers;
      }
      cases (added x, wm) = record {
        grown = same-IsGrown sum256 s.node.chain sane.linked;
        peers = sane.peers;
      }

  pub handle_wallet_restore-IsStep :
      (s : Server F D) (r : Request)
      → IsSane sum256 s.node
      → IsStep sum256 s.node (handle_wallet_restore write_file s r).1.node
  unfolding handle_wallet_restore
  handle_wallet_restore-IsStep s r sane =
      let same = same-IsStep sum256 s sane in
      elim (Bool-cases (is_post r)) [
        | inr e ↦ rw (e, handle_wallet_restore) same
        | inl e ↦ rw (e, handle_wallet_restore) (cases (restore write_file r.body s.wallets))
      ]
    where
      cases : (r : Added × WalletManager) → IsStep sum256 s.node (answer_restored s r).1.node
      cases (not_added, wm) = record {
        grown = same-IsGrown sum256 s.node.chain sane.linked;
        peers = sane.peers;
      }
      cases (map_panics, wm) = record {
        grown = same-IsGrown sum256 s.node.chain sane.linked;
        peers = sane.peers;
      }
      cases (added x, wm) = record {
        grown = same-IsGrown sum256 s.node.chain sane.linked;
        peers = sane.peers;
      }

module _ (sum256 : List ℕ → List ℕ) {F : Type 0} ⦃fl : Float64 F⦄ ⦃js : Json F⦄ ⦃rj : RpcJson F⦄
    {D : Type 0} ⦃db : Bolt D⦄ where
  module _ (laws : IsBolt D) (json : IsJson F) where
    pub handle_rpc-IsStep :
        (s : Server F D) (body : List ℕ) (env : Ambient)
        → get_block_count s.node.chain.store < 2 ^ 63
        → IsSane sum256 s.node
        → IsStep sum256 s.node (handle_rpc sum256 s body env).1.node
    unfolding handle_rpc
    handle_rpc-IsStep s body env room sane = elim (Option-cases (rj.unmarshal_request body)) [
      | inl e ↦ rw (e, handle_rpc) (same-IsStep sum256 s sane)
      | inr (req, e) ↦ rw (e, handle_rpc) (by_method req.method req)
    ]
      where
        submits : (req : RpcRequest) → IsStep sum256 s.node (rpc_submit_block sum256 s req).1.node
        submits req = elim (Option-cases (js.unmarshal_block req.params)) [
          | inl e ↦ unfold rpc_submit_block in rw (e, rpc_submit_block) (same-IsStep sum256 s sane)
          | inr (b, e) ↦
              unfold rpc_submit_block in
              rw (e, rpc_submit_block)
                (submitted-IsStep sum256 s req.id b (add_block sum256 s.node.chain b) sane (
                  add_block-IsGrown sum256 laws s.node.chain b room (json.decoded req.params b e)
                    sane.linked))
        ]

        reading :
            (m : RpcMethod) (req : RpcRequest)
            → IsReading m
            → IsStep sum256 s.node (handle_method sum256 m s req env).1.node
        reading m req h =
            unchanged-IsStep sum256 s (handle_method sum256 m s req env) sane
              (handle_method-IsUnchanged sum256 m s req env h)

        by_method :
            (m : RpcMethod) (req : RpcRequest)
            → IsStep sum256 s.node (handle_method sum256 m s req env).1.node
        by_method submitblock req = unfold handle_method in submits req
        by_method getblocktemplate req = reading getblocktemplate req tt
        by_method getblockcount req = reading getblockcount req tt
        by_method getbestblockhash req = reading getbestblockhash req tt
        by_method getmininginfo req = reading getmininginfo req tt
        by_method getpeerinfo req = reading getpeerinfo req tt
        by_method (other_method name) req = reading (other_method name) req tt
