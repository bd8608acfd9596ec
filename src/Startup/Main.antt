-- ===== src/Startup/Main.antt =====
-- cmd/dvcnode/main.go: `main`, up to the wait for a signal. The machine, its files and the network are
-- parameters; the printed lines and making the directories are left out, and so is the start of the
-- HTTP server, which runs beside `main`.
use devinsidercoin.Prelude.{
  ℕ, ◌<◌, ◌^◌, ◌≡◌, refl, ◌∙◌, Bool, true, Option, none, some, List, [], ◌∷◌, ◌++◌, length, Str,
  codes, str_eq, if◌then◌else◌,
}
use devinsidercoin.Prelude.Int.{ℤ}
use devinsidercoin.Prelude.Float64.{Float64}
use devinsidercoin.Config.{NetworkConfig, load_config}
use devinsidercoin.Block.{Block}
use devinsidercoin.Genesis.{create_genesis_block}
use devinsidercoin.Storage.Database.{Bolt, IsBolt}
use devinsidercoin.Storage.Encoding.{Json, IsJson}
use devinsidercoin.Storage.{◌>>=◌}
use devinsidercoin.Storage.Total.{IsStorable}
use devinsidercoin.Storage.Opening.{Opener, IsOpener, new_store, new_store_total}
use devinsidercoin.Chain.Start.{OldChain, genesis_commit, opened}
use devinsidercoin.Chain.Start.Fresh.{IsBlank}
use devinsidercoin.Node.{Wire}
use devinsidercoin.Node.Run.{IsSane}
use devinsidercoin.Wallet.{WalletJson, Ed25519}
use devinsidercoin.Rpc.{Server, RpcJson}
use devinsidercoin.Rpc.Run.{Input, handle_inputs}
use devinsidercoin.Startup.{choose_port, peers_to_connect, start_server, start_server-IsSane}

pub record Flags : Type 0 where
  pub network : Str
  pub data_dir : Str
  pub port : ℤ
  pub rpc_port : ℤ
  pub add_peers : Str
  pub config : Str

-- The calls of os, path/filepath, strings, time and net. `read_file` is `none` for an error; `listen` and
-- `dial` tell whether there is none.
pub record Machine : Type 0 where
  pub executable : Str
  pub dir : Str → Str
  pub join : List Str → Str
  pub exists : Str → Bool
  pub read_file : Str → Option (List ℕ)
  pub split : Str → List Str
  pub trim : Str → Str
  pub listen : ℤ → Bool
  pub dial : Str → Bool
  pub now : ℤ

-- The server, the ports, and the peers to which there is a connection.
pub record Running (F D : Type 0) : Type 0 where
  pub server : Server F D
  pub p2p_port : ℤ
  pub rpc_port : ℤ
  pub dialed : List Str

-- The calls of `ConnectPeer`: the addresses for which it gives no error.
unfoldable pub connect_each : (Str → Bool) → List Str → List Str
connect_each dial [] = []
connect_each dial (address ∷ addresses) =
    let rest = connect_each dial addresses in if dial address then address ∷ rest else rest

-- How `main` gets on. The first four are exits with an error.
pub data Launch (F D : Type 0) : Type 0 where
  no_config : Str → Launch F D
  no_database no_genesis : Launch F D
  no_listener : ℤ → Launch F D
  running : Running F D → Launch F D

unfoldable pub config_path : Machine → Flags → Str
config_path m flags =
    let beside =
      m.join (m.dir m.executable ∷ codes "networks" ∷ (flags.network ++ codes ".json") ∷ []) in
    let local = m.join (codes "networks" ∷ (flags.network ++ codes ".json") ∷ []) in
    if str_eq flags.config [] then (if m.exists beside then beside else local) else flags.config

unfoldable pub data_path : Machine → Flags → Str
data_path m flags =
    if str_eq flags.data_dir [] then m.join (codes "data" ∷ flags.network ∷ []) else flags.data_dir

-- The paths that `NewStore`, `migrateFromJSON` and `loadFromDisk` put together.
abbrev pub file_in : Machine → Str → Str → Str
file_in m path name = m.join (path ∷ name ∷ [])

module _ (sum256 : List ℕ → List ℕ) (parse_time : Str → Option ℤ) {F : Type 0} ⦃fl : Float64 F⦄
    ⦃js : Json F⦄ ⦃wj : WalletJson⦄ {D : Type 0} ⦃db : Bolt D⦄ ⦃op : Opener D⦄
    (unmarshal : List ℕ → Option (NetworkConfig F))
    (unmarshal_old : List ℕ → Option (OldChain F)) where
  -- From the start of the P2P node on.
  unfoldable pub open_ports : Machine → Flags → NetworkConfig F → Server F D → Launch F D
  open_ports m flags cfg s =
      let port = choose_port cfg.p2p_port flags.port in
      if m.listen port
      then running (record {
        server = s;
        p2p_port = port;
        rpc_port = choose_port cfg.rpc_port flags.rpc_port;
        dialed = connect_each m.dial (peers_to_connect m.split m.trim flags.add_peers);
      })
      else no_listener port

  -- `NewBlockchain` and `NewWalletManager` on the opened database.
  unfoldable pub open_chain : Machine → Flags → Str → NetworkConfig F → D → Launch F D
  unfolding open_ports
  open_chain m flags path cfg d =
      let old = m.read_file (file_in m path (codes "blockchain.json")) >>= unmarshal_old in
      let wallets =
        m.read_file (file_in m (file_in m path (codes "wallets")) (codes "wallets.json")) in
      let config_file = m.read_file (config_path m flags) in
      elim (start_server sum256 parse_time unmarshal config_file d old wallets m.now) [
        | none ↦ no_genesis
        | some s ↦ open_ports m flags cfg s
      ]

  unfoldable pub run_main : Machine → Flags → Launch F D
  unfolding open_chain
  run_main m flags =
      let path = data_path m flags in
      elim (load_config unmarshal (m.read_file (config_path m flags))) [
        | none ↦ no_config (config_path m flags)
        | some cfg ↦ elim (new_store (file_in m path (codes "blockchain.db"))) [
          | none ↦ no_database
          | some d ↦ open_chain m flags path cfg d
        ]
      ]

  run_main-running :
      (m : Machine) (flags : Flags) (cfg : NetworkConfig F) (d : D) (s : Server F D)
      → load_config unmarshal (m.read_file (config_path m flags)) ≡ some cfg
      → new_store (file_in m (data_path m flags) (codes "blockchain.db")) ≡ some d
      → m.read_file (file_in m (data_path m flags) (codes "blockchain.json")) ≡ none
      → start_server sum256 parse_time unmarshal
          (m.read_file (config_path m flags))
          d
          none
          (m.read_file
            (file_in m (file_in m (data_path m flags) (codes "wallets")) (codes "wallets.json")))
          m.now
        ≡ some s
      → m.listen (choose_port cfg.p2p_port flags.port) ≡ true
      → run_main m flags
        ≡ running (record {
          server = s;
          p2p_port = choose_port cfg.p2p_port flags.port;
          rpc_port = choose_port cfg.rpc_port flags.rpc_port;
          dialed = connect_each m.dial (peers_to_connect m.split m.trim flags.add_peers);
        })
  unfolding run_main open_chain open_ports
  run_main-running m flags cfg d s loaded made no_old started free =
      rw (loaded, run_main)
        (rw (made, run_main)
          (rw (no_old, open_chain) (rw (started, open_chain) (rw (free, open_ports) refl))))

module _ (sum256 : List ℕ → List ℕ) (base58 : List ℕ → Str) (ed : Ed25519)
    (write_file : Option (List ℕ) → List ℕ → Option (List ℕ)) {F : Type 0} ⦃fl : Float64 F⦄
    ⦃js : Json F⦄ ⦃w : Wire F⦄ ⦃rj : RpcJson F⦄ ⦃wj : WalletJson⦄ {D : Type 0} ⦃db : Bolt D⦄
    ⦃op : Opener D⦄ where
  -- Under bbolt's laws, `main` with a readable configuration, a file of the database without a key, no
  -- older file and a port that is free gets as far as a running server, which listens at the port of
  -- the flags or else of the configuration. Whatever then reaches the server, in any order and fewer
  -- than 2^63 times, its blocks form a chain and its peers are distinct: below the count of blocks one
  -- is stored at every height and nothing elsewhere, each with its height and the hash of its header,
  -- above the genesis block with enough work and within the configured limits, and with the hash of
  -- the block under it; the last block in memory is the one on top. Decoded blocks and the genesis
  -- block are to survive their encoding, the genesis block is to be within bbolt's limits, and the
  -- file is to be written.
  pub run_main-IsSane :
      IsBolt D
      → IsOpener D
      → IsJson F
      → (parse_time : Str → Option ℤ) (unmarshal : List ℕ → Option (NetworkConfig F))
        (unmarshal_old : List ℕ → Option (OldChain F)) (m : Machine) (flags : Flags)
        (cfg : NetworkConfig F) (file : D) (inputs : List Input)
      → load_config unmarshal (m.read_file (config_path m flags)) ≡ some cfg
      → op.open_file (file_in m (data_path m flags) (codes "blockchain.db")) ≡ some file
      → IsBlank file
      → m.read_file (file_in m (data_path m flags) (codes "blockchain.json")) ≡ none
      → m.listen (choose_port cfg.p2p_port flags.port) ≡ true
      → ((after : D) → db.flush after ≡ true)
      → ((d : D) (genesis : Block F)
          → create_genesis_block sum256 parse_time cfg m.now ≡ some genesis
          → IsStorable (genesis_commit (opened cfg d) genesis)
            × (js.unmarshal_block (js.marshal_block genesis) ≡ some genesis))
      → length inputs < 2 ^ 63
      → (r : Running F D) × (run_main sum256 parse_time unmarshal unmarshal_old m flags ≡ running r)
        × (r.p2p_port ≡ choose_port cfg.p2p_port flags.port)
        × IsSane sum256 (handle_inputs sum256 base58 ed write_file r.server inputs).0.node
  run_main-IsSane laws opener json parse_time unmarshal unmarshal_old m flags cfg file inputs loaded
        opened_file blank no_old free flushed fits few =
      let path = file_in m (data_path m flags) (codes "blockchain.db") in
      let wallets_path =
        file_in m (file_in m (data_path m flags) (codes "wallets")) (codes "wallets.json") in
      let (d, made, same) = new_store_total opener flushed path file opened_file in
      let still : IsBlank d = record { blank = λ b k. same b k ∙ blank.blank b k } in
      let (s, started, sane) =
        start_server-IsSane sum256 base58 ed write_file laws json parse_time unmarshal
          (m.read_file (config_path m flags)) cfg d (m.read_file wallets_path) m.now inputs loaded
          still flushed (fits d) few in
      (
        record {
          server = s;
          p2p_port = choose_port cfg.p2p_port flags.port;
          rpc_port = choose_port cfg.rpc_port flags.rpc_port;
          dialed = connect_each m.dial (peers_to_connect m.split m.trim flags.add_peers);
        },
        run_main-running sum256 parse_time unmarshal unmarshal_old m flags cfg d s loaded made
            no_old started free,
        refl,
        sane,
      )
