-- ===== src/Rpc/Payments.antt =====
-- internal/rpc/server.go: what the requests that queue a transaction ask of the wallets and of the
-- chain.
use devinsidercoin.Prelude.{
  ℕ, ◌≡◌, refl, sym, ap, Bool-cases, true, false, Option, none, some, inl, inr, Option-cases, List,
  [], ◌∷◌, ◌++◌, arith, Str, length, ◌==◌,
}
use devinsidercoin.Prelude.Dict.{lookup}
use devinsidercoin.Prelude.Float64.{Float64}
use devinsidercoin.Bytes.{decode_string, encode_to_string}
use devinsidercoin.Block.{Transaction, unstake, transfer, new_transfer_transaction}
use devinsidercoin.Storage.Encoding.{Json}
use devinsidercoin.Chain.{Blockchain}
use devinsidercoin.Chain.Mempool.{
  MempoolError, add_to_mempool, refusal, IsQueued, IsAffordable, add_to_mempool-IsQueued,
}
use devinsidercoin.Node.{Sent, broadcast_tx}
use devinsidercoin.Wallet.{
  Wallet, WalletManager, Ed25519, Signed, signature, not_found, sign_panics, sign,
}
use devinsidercoin.Rpc.{
  Server, Request, Ambient, SendRequest, RpcJson, sent_pending, pending, json_ok, Outcome, is_post,
  is_blank,
}
use devinsidercoin.Rpc.Wallets.{
  queued, transfer_of, signed, is_incomplete, handle_wallet_send, stake_transaction, take_staking,
  handle_staking, handle_wallet_unstake,
}

module _ {F : Type 0} ⦃js : Json F⦄ {D : Type 0} where
  -- The transaction has been put at the end of the mempool and sent to all peers, and nothing else.
  pub record IsTaken (s : Server F D) (tx : Transaction F) (after : Server F D) (sent : Sent)
      : Type 0 where
    pub server : after ≡ record s {
      node = record s.node {
        chain = record s.node.chain { mempool = s.node.chain.mempool ++ (tx ∷ []) };
      };
    }
    pub messages : sent ≡ broadcast_tx s.node tx

-- The signature is the one of the content by the wallet of the address.
pub record IsSignedBy (ed : Ed25519) (wm : WalletManager) (address : Str) (content : List ℕ)
    (sig : Str) : Type 0 where
  pub wallet : Wallet
  pub found : lookup address wm.wallets ≡ some wallet
  pub key_length : length (decode_string wallet.private_key).0 ≡ 64
  pub made : sig ≡ encode_to_string (ed.sign (decode_string wallet.private_key).0 content)

sign-IsSignedBy :
    (ed : Ed25519) (address : Str) (content : List ℕ) (wm : WalletManager) (sig : Str)
    → sign ed address content wm ≡ signature sig
    → IsSignedBy ed wm address content sig
unfolding sign
sign-IsSignedBy ed address content wm sig e = elim (Option-cases (lookup address wm.wallets)) [
  | inl missing ↦ absurd (cc (rw (missing, sign) at e))
  | inr (w, found) ↦ elim (Bool-cases (length (decode_string w.private_key).0 == 64)) [
    | inr short ↦ absurd (cc (rw (found, short, sign) at e))
    | inl fits ↦
        let made : signature (encode_to_string (ed.sign (decode_string w.private_key).0 content))
            ≡ signature sig =
          rw (found, fits, sign) at e in
        record { wallet = w; found = found; key_length = ground arith; made = sym (cc made) }
  ]
]

module _ (ed : Ed25519) {F : Type 0} ⦃fl : Float64 F⦄ ⦃js : Json F⦄ ⦃rj : RpcJson F⦄
    {D : Type 0} where
  -- What a request to send has done, by its answer: only an answer with a pending transaction changes
  -- anything. It has put the transaction into the mempool and sent it to all peers, the amount is
  -- positive and within the balance, its time is the second reading of the clock, and the signature is
  -- by the sender's wallet, of a text with the first reading.
  abbrev pub IsPayment : Server F D → Ambient → Outcome F D → Type 0
  IsPayment s env (json_ok (sent_pending tx), after, sent) =
      IsTaken s tx after sent
      × (tx.type ≡ transfer)
      × (fl.le tx.amount (fl.literal 0 0) ≡ false)
      × IsAffordable transfer s.node.chain tx
      × (tx.timestamp ≡ env.second_now)
      × IsSignedBy ed s.wallets tx.from (rj.transfer_text tx.from tx.to tx.amount env.now)
          tx.signature
  IsPayment s env (_, after, sent) = (after ≡ s) × (sent ≡ [])

module _ (ed : Ed25519) (sum256 : List ℕ → List ℕ) {F : Type 0} ⦃fl : Float64 F⦄ ⦃js : Json F⦄
    ⦃rj : RpcJson F⦄ {D : Type 0} where
  signed-IsPayment :
      (s : Server F D) (req : SendRequest F) (env : Ambient) (r : Signed)
      → fl.le req.amount (fl.literal 0 0) ≡ false
      → sign ed req.from (rj.transfer_text req.from req.to req.amount env.now) s.wallets ≡ r
      → IsPayment ed s env (signed sum256 s req env.second_now r)
  unfolding signed new_transfer_transaction
  signed-IsPayment s req env not_found positive e = (refl, refl)
  signed-IsPayment s req env sign_panics positive e = (refl, refl)
  signed-IsPayment s req env (signature sig) positive e =
      cases (add_to_mempool s.node.chain tx) (add_to_mempool-IsQueued s.node.chain tx)
    where
      tx : Transaction F
      tx = transfer_of sum256 req sig env.second_now

      cases :
          (r : Option MempoolError × Blockchain F D)
          → IsQueued s.node.chain tx r
          → IsPayment ed s env (queued s tx (sent_pending tx) r)
      cases (some error, chain) q =
          (ap (λ c. record s { node = record s.node { chain = c } }) q.1, refl)
      cases (none, chain) q = (
        record {
          server = ap (λ c. record s { node = record s.node { chain = c } }) q.1;
          messages = unfold broadcast_tx in refl;
        },
        refl,
        positive,
        q.0,
        refl,
        sign-IsSignedBy ed req.from (rj.transfer_text req.from req.to req.amount env.now) s.wallets
            sig e,
      )

  -- A request to send either changes nothing and sends nothing, or its answer names a transfer. The
  -- transfer has then been put at the end of the mempool and sent to all peers; its amount is
  -- positive, it is affordable, its time is the second reading of the clock, and its signature is by
  -- the sender's wallet, of a text with the first reading.
  pub handle_wallet_send-IsPayment :
      (s : Server F D) (r : Request) (env : Ambient)
      → IsPayment ed s env (handle_wallet_send sum256 ed s r env)
  unfolding handle_wallet_send is_incomplete
  handle_wallet_send-IsPayment s r env = elim (Bool-cases (is_post r)) [
    | inr e ↦ rw (e, handle_wallet_send) (refl, refl)
    | inl e ↦ elim (Option-cases (rj.unmarshal_send r.body)) [
      | inl bad ↦ rw (e, bad, handle_wallet_send) (refl, refl)
      | inr (req, good) ↦ elim (Bool-cases (is_incomplete req)) [
        | inl missing ↦ rw (e, good, missing, handle_wallet_send) (refl, refl)
        | inr complete ↦
            rw (e, good, complete, handle_wallet_send)
              (signed-IsPayment s req env _ (ground arith) refl)
      ]
    ]
  ]

  pub handle_wallet_unstake_unchecked :
      (s : Server F D) (r : Request) (env : Ambient)
      → is_post r ≡ true
      → is_blank (rj.fill_stake r.body).address ≡ false
      → fl.le (rj.fill_stake r.body).amount (fl.literal 0 0) ≡ false
      → let tx = stake_transaction sum256 unstake (rj.fill_stake r.body) env.now in
        ((handle_wallet_unstake sum256 s r env).0 ≡ json_ok (pending tx.tx_id))
        × IsTaken s tx
            (handle_wallet_unstake sum256 s r env).1
            (handle_wallet_unstake sum256 s r env).2
  unfolding handle_wallet_unstake handle_staking take_staking add_to_mempool refusal
      stake_transaction broadcast_tx
  handle_wallet_unstake_unchecked s r env post named positive =
      rw (post, handle_staking, named, positive) (refl, record { server = refl; messages = refl })
