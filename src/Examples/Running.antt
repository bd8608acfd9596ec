-- ===== src/Examples/Running.antt =====
-- The theorem on the program from its start on, applied.
use devinsidercoin.Prelude.{
  ℕ, ◌≡◌, refl, true, false, none, some, Option, List, [], ◌∷◌, ◌++◌, arith, Str, codes, str_eq,
  if◌then◌else◌,
}
use devinsidercoin.Prelude.Int.{pos}
use devinsidercoin.Bytes.{put_big}
use devinsidercoin.Config.{NetworkConfig, load_config, with_defaults}
use devinsidercoin.Storage.Encoding.{IsJson}
use devinsidercoin.Node.Run.{connected, received, IsSane}
use devinsidercoin.Rpc.{wallet_create}
use devinsidercoin.Rpc.Run.{Input, from_peer, from_client, handle_inputs}
use devinsidercoin.Startup.{choose_port}
use devinsidercoin.Startup.Main.{
  Flags, Machine, Running, running, config_path, data_path, run_main, run_main-IsSane,
}
use devinsidercoin.Storage.Opening.{Opener, IsOpener}
use devinsidercoin.Chain.Start.{OldChain, genesis_commit}
use devinsidercoin.Examples.{fixed, checksum, sample_config}
use devinsidercoin.Examples.Store.{Entry, entries, entries-IsBolt}
use devinsidercoin.Examples.Starts.{only_genesis, genesis_fits, empty-IsBlank, no_time}
use devinsidercoin.Examples.Network.{by_kind}
use devinsidercoin.Examples.Wallets.{with_lengths, by_length, plain_file, plain_base58}
use devinsidercoin.Examples.Requests.{by_method, times, post}

only_genesis-IsJson : IsJson ℕ
unfolding only_genesis
only_genesis-IsJson = record {
  filled = λ raw. refl;
  decoded = λ raw block e. e;
  filled_as = λ raw block e. cc e;
}

abbrev read_config : List ℕ → Option (NetworkConfig ℕ)
read_config content = some sample_config

abbrev some_inputs : List Input
some_inputs =
    from_peer (connected (codes "c"))
    ∷ from_client (post wallet_create []) times
    ∷ from_peer (received (codes "c") (3 ∷ put_big 8 1))
    ∷ []

abbrev slashed : List Str → Str
slashed [] = []
slashed (s ∷ parts) = s ++ (codes "/" ++ slashed parts)

-- A machine whose only file is the configuration.
abbrev machine : Machine
machine = record {
  executable = codes "dvcnode";
  dir = λ path. codes ".";
  join = slashed;
  exists = λ path. false;
  read_file =
      λ path. if str_eq path (codes "networks/testnet.json/") then some (codes "{}") else none;
  split = λ s. s ∷ [];
  trim = λ s. s;
  listen = λ port. true;
  dial = λ address. true;
  now = pos 1700000000;
}

abbrev flags : Flags
flags = record {
  network = codes "testnet";
  data_dir = [];
  port = pos 0;
  rpc_port = pos 0;
  add_peers = codes "a:1";
  config = [];
}

instance unfoldable empty_files : Opener (List Entry)
empty_files = record { open_file = λ path. some []; create_bucket_if_not_exists = λ d b. some d }

empty_files-IsOpener : IsOpener (List Entry)
unfolding empty_files
empty_files-IsOpener = record {
  created = λ d b. (d, refl);
  kept = λ d d' b c k e. let same : d ≡ d' = cc e in rw (← same) refl;
}

abbrev read_old : List ℕ → Option (OldChain ℕ)
read_old content = none

run_main-IsSane_example :
    (r : Running ℕ (List Entry)) × (run_main checksum no_time read_config read_old machine flags
      ≡ running r)
    × (r.p2p_port ≡ choose_port sample_config.p2p_port (pos 0))
    × IsSane checksum
        (handle_inputs checksum plain_base58 by_length plain_file r.server some_inputs).0.node
run_main-IsSane_example =
    run_main-IsSane checksum plain_base58 by_length plain_file entries-IsBolt empty_files-IsOpener
      only_genesis-IsJson no_time read_config read_old machine flags sample_config [] some_inputs
      (unfold config_path str_eq load_config with_defaults fixed in refl)
      (unfold empty_files in refl) empty-IsBlank (unfold data_path str_eq in refl) refl
      (unfold entries in λ after. refl) (unfold genesis_commit in λ d. genesis_fits) (omega arith)
