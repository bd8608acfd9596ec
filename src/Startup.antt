-- ===== src/Startup.antt =====
-- cmd/dvcnode/main.go: the node from its start on. The flags are arguments; `strings.Split` at commas
-- and `strings.TrimSpace` are parameters.
pub mod Main
use devinsidercoin.Prelude.{
  ℕ, ◌<◌, ◌^◌, ◌≡◌, refl, true, Option, none, some, List, [], ◌∷◌, length, arith, Str, str_eq,
  if◌then◌else◌,
}
use devinsidercoin.Prelude.Int.{ℤ, pos, ltb_ℤ}
use devinsidercoin.Prelude.Float64.{Float64}
use devinsidercoin.Config.{NetworkConfig, load_config}
use devinsidercoin.Block.{Block}
use devinsidercoin.Genesis.{create_genesis_block}
use devinsidercoin.Storage.Database.{Bolt, IsBolt}
use devinsidercoin.Storage.Encoding.{Json, IsJson}
use devinsidercoin.Storage.{◌>>=◌}
use devinsidercoin.Storage.Total.{IsStorable}
use devinsidercoin.Chain.Start.{OldChain, new_blockchain, genesis_commit, opened}
use devinsidercoin.Chain.Start.Fresh.{IsBlank, new_blockchain-fresh}
use devinsidercoin.Node.{Wire, new_node}
use devinsidercoin.Node.Run.{IsSane}
use devinsidercoin.Wallet.{WalletJson, Ed25519, new_wallet_manager}
use devinsidercoin.Rpc.{Server, RpcJson}
use devinsidercoin.Rpc.Run.{Input, handle_inputs, handle_inputs-IsSane}

-- A port of the flags comes before the configured one.
unfoldable pub choose_port : ℤ → ℤ → ℤ
choose_port configured flag = if ltb_ℤ (pos 0) flag then flag else configured

-- The addresses that the loop over `-addpeer` connects to.
unfoldable pub trimmed : (Str → Str) → List Str → List Str
trimmed trim [] = []
trimmed trim (s ∷ parts) =
    let rest = trimmed trim parts in if str_eq (trim s) [] then rest else trim s ∷ rest

unfoldable pub peers_to_connect : (Str → List Str) → (Str → Str) → Str → List Str
unfolding trimmed
peers_to_connect split trim add_peers =
    if str_eq add_peers [] then [] else trimmed trim (split add_peers)

module _ (sum256 : List ℕ → List ℕ) (parse_time : Str → Option ℤ) {F : Type 0} ⦃fl : Float64 F⦄
    ⦃js : Json F⦄ ⦃wj : WalletJson⦄ {D : Type 0} ⦃db : Bolt D⦄ where
  -- The server that `main` puts together, of the files' contents; `none` is an exit.
  unfoldable pub start_server :
      (List ℕ → Option (NetworkConfig F))
      → Option (List ℕ)
      → D
      → Option (OldChain F)
      → Option (List ℕ)
      → ℤ
      → Option (Server F D)
  start_server unmarshal config_file d old wallets_file now = do
    cfg ← load_config unmarshal config_file
    chain ← new_blockchain sum256 parse_time cfg d old now
    some (record {
      node = new_node cfg chain;
      wallets = new_wallet_manager cfg.address_prefix wallets_file;
    })

module _ (sum256 : List ℕ → List ℕ) (base58 : List ℕ → Str) (ed : Ed25519)
    (write_file : Option (List ℕ) → List ℕ → Option (List ℕ)) {F : Type 0} ⦃fl : Float64 F⦄
    ⦃js : Json F⦄ ⦃w : Wire F⦄ ⦃rj : RpcJson F⦄ ⦃wj : WalletJson⦄ {D : Type 0} ⦃db : Bolt D⦄ where
  -- Under bbolt's laws, a node that starts on an empty database with a readable configuration and
  -- without an older file starts, and whatever then reaches it, in any order and fewer than 2^63
  -- times, its blocks form a chain and its peers are distinct. Decoded blocks and the genesis block
  -- are to survive their encoding, the genesis block is to be within bbolt's limits, and the file is
  -- to be written.
  pub start_server-IsSane :
      IsBolt D
      → IsJson F
      → (parse_time : Str → Option ℤ) (unmarshal : List ℕ → Option (NetworkConfig F))
        (config_file : Option (List ℕ)) (cfg : NetworkConfig F) (d : D)
        (wallets_file : Option (List ℕ)) (now : ℤ) (inputs : List Input)
      → load_config unmarshal config_file ≡ some cfg
      → IsBlank d
      → ((after : D) → db.flush after ≡ true)
      → ((genesis : Block F)
          → create_genesis_block sum256 parse_time cfg now ≡ some genesis
          → IsStorable (genesis_commit (opened cfg d) genesis)
            × (js.unmarshal_block (js.marshal_block genesis) ≡ some genesis))
      → length inputs < 2 ^ 63
      → (s : Server F D) × (start_server sum256 parse_time unmarshal config_file d none wallets_file
            now
          ≡ some s)
        × IsSane sum256 (handle_inputs sum256 base58 ed write_file s inputs).0.node
  unfolding start_server new_node
  start_server-IsSane laws json parse_time unmarshal config_file cfg d wallets_file now inputs
        loaded blank flushed fits few =
      let (bc, made, count, linked, agrees) =
        new_blockchain-fresh sum256 laws parse_time cfg d now blank flushed fits in
      let s : Server F D = record {
        node = new_node cfg bc;
        wallets = new_wallet_manager cfg.address_prefix wallets_file;
      } in
      (
        s,
        rw (loaded, made, start_server) refl,
        handle_inputs-IsSane sum256 base58 ed write_file laws json s inputs (omega (arith, count))
            (record { linked = linked; peers = tt }),
      )
