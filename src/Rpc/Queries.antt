-- ===== src/Rpc/Queries.antt =====
-- internal/rpc/server.go: the requests that change nothing.
use devinsidercoin.Prelude.{
  ℕ, ◌≡◌, refl, Bool-cases, false, Option, none, some, inl, inr, Option-cases, List, [], Str, codes,
}
use devinsidercoin.Prelude.Float64.{Float64}
use devinsidercoin.Storage.Database.{Bolt}
use devinsidercoin.Storage.Encoding.{Json}
use devinsidercoin.Wallet.{WalletJson, Ed25519, backup}
use devinsidercoin.Chain.Queries.{find_block}
use devinsidercoin.Chain.Template.{create_block_template}
use devinsidercoin.Rpc.{
  Server, Request, Route, rpc, wallet_create, wallet_list, wallet_backup, wallet_restore,
  wallet_send, wallet_balance, wallet_transactions, wallet_stake, wallet_unstake, chain_info,
  chain_block, unknown_path, RpcMethod, getblocktemplate, submitblock, getblockcount,
  getbestblockhash, getmininginfo, getpeerinfo, other_method, RpcRequest, RpcJson, Ambient, Outcome,
  is_post, is_blank, is_options,
}
use devinsidercoin.Rpc.Mining.{handle_rpc, handle_method, rpc_get_block_template}
use devinsidercoin.Rpc.Info.{
  handle_wallet_list, handle_wallet_balance, handle_wallet_backup, handle_wallet_transactions,
  handle_chain_block, handle_chain_info,
}
use devinsidercoin.Rpc.Wallets.{
  handle_wallet_create, handle_wallet_restore, handle_wallet_send, handle_wallet_stake,
  handle_wallet_unstake, handle_staking,
}
use devinsidercoin.Rpc.Serve.{serve, handle_route}

abbrev pub IsReading : RpcMethod → Type 0
IsReading submitblock = ⊥
IsReading _ = Unit

module _ (F : Type 0) ⦃rj : RpcJson F⦄ where
  -- A request that is not meant to change anything, or to a changing REST path without POST.
  abbrev pub IsReadOnly : Route → Request → Type 0
  IsReadOnly rpc r = elim (rj.unmarshal_request r.body) [
    | none ↦ Unit
    | some req ↦ IsReading req.method
  ]
  IsReadOnly wallet_create r = is_post r ≡ false
  IsReadOnly wallet_restore r = is_post r ≡ false
  IsReadOnly wallet_send r = is_post r ≡ false
  IsReadOnly wallet_stake r = is_post r ≡ false
  IsReadOnly wallet_unstake r = is_post r ≡ false
  IsReadOnly _ r = Unit

module _ {F D : Type 0} where
  -- The server is as before and nothing is sent.
  abbrev pub IsUnchanged : Server F D → Outcome F D → Type 0
  IsUnchanged s o = (o.1 ≡ s) × (o.2 ≡ [])

module _ (sum256 : List ℕ → List ℕ) {F : Type 0} ⦃fl : Float64 F⦄ ⦃js : Json F⦄ ⦃rj : RpcJson F⦄
    {D : Type 0} ⦃db : Bolt D⦄ where
  pub handle_method-IsUnchanged :
      (m : RpcMethod) (s : Server F D) (req : RpcRequest) (env : Ambient)
      → IsReading m
      → IsUnchanged s (handle_method sum256 m s req env)
  unfolding handle_method rpc_get_block_template
  handle_method-IsUnchanged submitblock s req env h = absurd h
  handle_method-IsUnchanged getblockcount s req env h = (refl, refl)
  handle_method-IsUnchanged getbestblockhash s req env h = (refl, refl)
  handle_method-IsUnchanged getmininginfo s req env h = (refl, refl)
  handle_method-IsUnchanged getpeerinfo s req env h = (refl, refl)
  handle_method-IsUnchanged (other_method name) s req env h = (refl, refl)
  handle_method-IsUnchanged getblocktemplate s req env h =
      elim (Bool-cases (is_blank (rj.fill_miner_address req.params))) [
        | inl e ↦ rw (e, rpc_get_block_template) (refl, refl)
        | inr e ↦
            elim (Option-cases (
              create_block_template sum256 s.node.chain (rj.fill_miner_address req.params) env.now
                env.second_now env.third_now)) [
                  | inl panics ↦ rw (e, panics, rpc_get_block_template) (refl, refl)
                  | inr (t, made) ↦ rw (e, made, rpc_get_block_template) (refl, refl)
                ]
      ]

module _ (sum256 : List ℕ → List ℕ) (base58 : List ℕ → Str) (ed : Ed25519)
    (write_file : Option (List ℕ) → List ℕ → Option (List ℕ)) {F : Type 0} ⦃fl : Float64 F⦄
    ⦃js : Json F⦄ ⦃rj : RpcJson F⦄ ⦃wj : WalletJson⦄ {D : Type 0} ⦃db : Bolt D⦄ where
  pub handle_route-IsUnchanged :
      (route : Route) (s : Server F D) (r : Request) (env : Ambient)
      → IsReadOnly F route r
      → IsUnchanged s (handle_route sum256 base58 ed write_file route s r env)
  unfolding handle_route handle_rpc handle_wallet_create handle_wallet_restore handle_wallet_send
      handle_wallet_stake handle_wallet_unstake handle_staking handle_wallet_list handle_chain_info
      handle_wallet_balance handle_wallet_backup handle_wallet_transactions handle_chain_block
  handle_route-IsUnchanged rpc s r env h = elim (Option-cases (rj.unmarshal_request r.body)) [
    | inl e ↦ rw (e, handle_rpc) (refl, refl)
    | inr (req, e) ↦
        rw (e, handle_rpc)
          (handle_method-IsUnchanged sum256 req.method s req env (rw (e, IsReadOnly) at h))
  ]
  handle_route-IsUnchanged wallet_create s r env h = rw (h, handle_wallet_create) (refl, refl)
  handle_route-IsUnchanged wallet_restore s r env h = rw (h, handle_wallet_restore) (refl, refl)
  handle_route-IsUnchanged wallet_send s r env h = rw (h, handle_wallet_send) (refl, refl)
  handle_route-IsUnchanged wallet_stake s r env h = rw (h, handle_staking) (refl, refl)
  handle_route-IsUnchanged wallet_unstake s r env h = rw (h, handle_staking) (refl, refl)
  handle_route-IsUnchanged wallet_list s r env h = (refl, refl)
  handle_route-IsUnchanged chain_info s r env h = (refl, refl)
  handle_route-IsUnchanged unknown_path s r env h = (refl, refl)
  handle_route-IsUnchanged wallet_balance s r env h =
      elim (Bool-cases (is_blank (r.query (codes "address")))) [
        | inl e ↦ rw (e, handle_wallet_balance) (refl, refl)
        | inr e ↦ rw (e, handle_wallet_balance) (refl, refl)
      ]
  handle_route-IsUnchanged wallet_transactions s r env h =
      elim (Bool-cases (is_blank (r.query (codes "address")))) [
        | inl e ↦ rw (e, handle_wallet_transactions) (refl, refl)
        | inr e ↦ rw (e, handle_wallet_transactions) (refl, refl)
      ]
  handle_route-IsUnchanged wallet_backup s r env h =
      elim (Bool-cases (is_blank (r.query (codes "address")))) [
        | inl e ↦ rw (e, handle_wallet_backup) (refl, refl)
        | inr e ↦ elim (Option-cases (backup (r.query (codes "address")) s.wallets)) [
          | inl none_there ↦ rw (e, none_there, handle_wallet_backup) (refl, refl)
          | inr (content, there) ↦ rw (e, there, handle_wallet_backup) (refl, refl)
        ]
      ]
  handle_route-IsUnchanged chain_block s r env h =
      elim (Bool-cases (is_blank (r.query (codes "hash")))) [
        | inl e ↦ rw (e, handle_chain_block) (refl, refl)
        | inr e ↦ elim (Option-cases (find_block {F = F} (r.query (codes "hash")) s.node.chain)) [
          | inl none_there ↦ rw (e, none_there, handle_chain_block) (refl, refl)
          | inr (block, there) ↦ rw (e, there, handle_chain_block) (refl, refl)
        ]
      ]

  -- A JSON-RPC request with a method other than submitblock or that does not decode, a request to a
  -- REST path that reads, and a request without POST to a REST path that changes something leave the
  -- whole server as it was and send nothing to the peers.
  pub serve-IsUnchanged :
      (s : Server F D) (r : Request) (env : Ambient)
      → IsReadOnly F r.route r
      → IsUnchanged s (serve sum256 base58 ed write_file s r env)
  unfolding serve
  serve-IsUnchanged s r env h = elim (Bool-cases (is_options r)) [
    | inl e ↦ rw (e, serve) (refl, refl)
    | inr e ↦ rw (e, serve) (handle_route-IsUnchanged r.route s r env h)
  ]
