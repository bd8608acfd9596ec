-- ===== src/Rpc.antt =====
-- internal/rpc/server.go: the requests and the answers, as data. An answer's JSON object is a record or
-- a case of its own; the text of an error is a case. HTTP, the JSON of the requests and the text that
-- is signed are parameters.
pub mod Mining
pub mod Wallets
pub mod Info
pub mod Serve
pub mod Submit
pub mod Payments
pub mod Queries
pub mod Steps
pub mod Run
use devinsidercoin.Prelude.{
  ℕ, Bool, true, false, Option, none, some, List, [], ◌∷◌, Str, codes, str_eq, if◌then◌else◌,
}
use devinsidercoin.Prelude.Int.{ℤ}
use devinsidercoin.Prelude.Dict.{Dict}
use devinsidercoin.Block.{Block, Transaction}
use devinsidercoin.Chain.{BlockError}
use devinsidercoin.Chain.Mempool.{MempoolError}
use devinsidercoin.Node.{Node, Sent}
use devinsidercoin.Wallet.{WalletManager}

-- The chain is the node's: both fields hold one pointer.
pub record Server (F D : Type 0) : Type 0 where
  pub node : Node F D
  pub wallets : WalletManager

-- The texts that `handleRPC` compares the method with, and any other.
pub data RpcMethod : Type 0 where
  getblocktemplate submitblock getblockcount getbestblockhash getmininginfo getpeerinfo : RpcMethod
  other_method : Str → RpcMethod

-- `JSONRPCRequest`; `id` is its JSON text.
pub record RpcRequest : Type 0 where
  pub method : RpcMethod
  pub params : List ℕ
  pub id : List ℕ

pub record SendRequest (F : Type 0) : Type 0 where
  pub from : Str
  pub to : Str
  pub amount : F

pub record StakeRequest (F : Type 0) : Type 0 where
  pub address : Str
  pub amount : F

-- The JSON of the requests, `none` being an error and a `fill` what decoding leaves in a zero value
-- with or without one, and the text `from:to:amount:time` that is signed.
pub record RpcJson (F : Type 0) : Type 0 where
  pub unmarshal_request : List ℕ → Option RpcRequest
  pub fill_miner_address : List ℕ → Str
  pub unmarshal_send : List ℕ → Option (SendRequest F)
  pub fill_stake : List ℕ → StakeRequest F
  pub transfer_text : Str → Str → F → ℤ → List ℕ

-- The paths that `Start` registers, and any other.
pub data Route : Type 0 where
  rpc wallet_create wallet_list wallet_backup wallet_restore wallet_send wallet_balance : Route
  wallet_transactions wallet_stake wallet_unstake chain_info chain_block unknown_path : Route

-- A parameter of the query that is missing is blank.
pub record Request : Type 0 where
  pub method : Str
  pub route : Route
  pub query : Str → Str
  pub body : List ℕ

-- What a request finds outside the program: the clock's readings, in order, and the keys that
-- `GenerateKey` yields.
pub record Ambient : Type 0 where
  pub now : ℤ
  pub second_now : ℤ
  pub third_now : ℤ
  pub keys : Option (List ℕ × List ℕ)

pub data RpcError : Type 0 where
  parse_error miner_address_required invalid_block : RpcError
  block_refused : BlockError → RpcError
  unknown_method : Str → RpcError

pub record MiningInfo (F : Type 0) : Type 0 where
  pub blocks : ℕ
  pub difficulty : ℕ
  pub network_hash : ℕ
  pub max_supply : F
  pub total_minted : F
  pub staked_total : F
  pub mempool_size : ℕ
  pub peers : ℕ

pub record ChainInfo (F : Type 0) : Type 0 where
  pub name : Str
  pub ticker : Str
  pub best_hash : Str
  pub mining : MiningInfo F

pub data RpcResult (F : Type 0) : Type 0 where
  template : Block F → RpcResult F
  accepted : Str → ℕ → RpcResult F
  block_count : ℕ → RpcResult F
  best_block_hash : Str → RpcResult F
  mining_info : MiningInfo F → RpcResult F
  peer_info : List Str → RpcResult F

pub record WalletInfo (F : Type 0) : Type 0 where
  pub address : Str
  pub balance : F
  pub staked : F

pub data RestError : Type 0 where
  post_required key_generation_failed address_required wallet_not_found bad_wallet : RestError
  invalid_body fields_required cannot_sign block_not_found hash_required : RestError
  mempool_refused : MempoolError → RestError

pub data RestResult (F : Type 0) : Type 0 where
  created : Str → Str → RestResult F
  restored : Str → RestResult F
  wallet_infos : List (WalletInfo F) → RestResult F
  balance_info : WalletInfo F → F → RestResult F
  transactions : List (Transaction F) → RestResult F
  sent_pending : Transaction F → RestResult F
  pending : Str → RestResult F
  chain_info : ChainInfo F → RestResult F
  block_found : Block F → RestResult F

-- `aborted` is a panic, which net/http recovers from.
pub data Response (F : Type 0) : Type 0 where
  rpc_result : List ℕ → RpcResult F → Response F
  rpc_error : List ℕ → RpcError → Response F
  json_ok : RestResult F → Response F
  json_err : ℕ → RestError → Response F
  attachment : List ℕ → Response F
  empty_ok not_found aborted : Response F

-- The answer, the server after the request, and the messages to the peers.
abbrev pub Outcome : Type 0 → Type 0 → Type 0
Outcome F D = Response F × Server F D × Sent

module _ {F D : Type 0} where
  -- An answer that changes nothing.
  abbrev pub answer : Server F D → Response F → Outcome F D
  answer s r = (r, s, [])

unfoldable pub is_post : Request → Bool
is_post r = str_eq r.method (codes "POST")

unfoldable pub is_options : Request → Bool
is_options r = str_eq r.method (codes "OPTIONS")

unfoldable pub is_blank : Str → Bool
is_blank s = str_eq s []
