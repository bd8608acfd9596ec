-- ===== src/Examples/Requests.antt =====
-- The theorems on the requests and on the whole node, applied. A JSON-RPC request is its method, a
-- number, and its parameters.
use devinsidercoin.Prelude.{
  ℕ, ◌≡◌, refl, none, some, List, [], ◌∷◌, ◌++◌, arith, codes, str_eq, ◌==◌, if◌then◌else◌,
}
use devinsidercoin.Prelude.Int.{pos}
use devinsidercoin.Prelude.Dict.{lookup}
use devinsidercoin.Bytes.{put_big}
use devinsidercoin.Block.{unstake}
use devinsidercoin.Storage.{get_block_count, get_best_height}
use devinsidercoin.Node.Run.{connected, received, disconnected, IsSane}
use devinsidercoin.Rpc.{
  Server, Request, Route, rpc, wallet_send, wallet_unstake, RpcMethod, getblocktemplate,
  submitblock, getblockcount, other_method, RpcJson, Ambient, json_ok, pending, is_post, is_blank,
}
use devinsidercoin.Rpc.Wallets.{stake_transaction, handle_wallet_send, handle_wallet_unstake}
use devinsidercoin.Rpc.Serve.{serve}
use devinsidercoin.Rpc.Payments.{
  IsTaken, IsPayment, handle_wallet_send-IsPayment, handle_wallet_unstake_unchecked,
}
use devinsidercoin.Rpc.Queries.{IsUnchanged, serve-IsUnchanged}
use devinsidercoin.Rpc.Run.{from_peer, from_client, handle_inputs, handle_inputs-IsSane}
use devinsidercoin.Examples.{fixed, by_height, checksum, coins}
use devinsidercoin.Examples.Store.{Entry, entries, entries-IsBolt, find}
use devinsidercoin.Examples.Chains.{empty_chain, empty_chain-IsLinked}
use devinsidercoin.Examples.Network.{by_kind, by_height-IsJson, sample_node}
use devinsidercoin.Examples.Wallets.{with_lengths, by_length, plain_file, plain_base58, one_wallet}

abbrev pub method_of : ℕ → RpcMethod
method_of k =
    if k == 0
    then getblocktemplate
    else if k == 1
    then submitblock
    else if k == 2
    then getblockcount
    else other_method []

instance unfoldable pub by_method : RpcJson ℕ
by_method = record {
  unmarshal_request = λ raw. elim raw [
    | [] ↦ none
    | k ∷ params ↦ some (record { method = method_of k; params = params; id = codes "1" })
  ];
  fill_miner_address = λ raw. raw;
  unmarshal_send = λ raw. some (record { from = codes "miner"; to = raw; amount = coins 5 });
  fill_stake = λ raw. record { address = raw; amount = coins 5 };
  transfer_text = λ from to amount time. from ++ (to ++ put_big 8 amount);
}

abbrev pub sample_server : Server ℕ (List Entry)
sample_server = record {
  node = record sample_node {
    chain = record empty_chain { balances = (codes "miner", coins 30) ∷ [] };
  };
  wallets = one_wallet;
}

abbrev pub times : Ambient
times = record {
  now = pos 1700000000;
  second_now = pos 1700000001;
  third_now = pos 1700000002;
  keys = none;
}

abbrev pub post : Route → List ℕ → Request
post route body = record { method = codes "POST"; route = route; query = λ name. []; body = body }

handle_wallet_send-IsPayment_example :
    IsPayment by_length sample_server times
      (handle_wallet_send checksum by_length sample_server (post wallet_send (codes "bob")) times)
handle_wallet_send-IsPayment_example =
    handle_wallet_send-IsPayment by_length checksum sample_server (post wallet_send (codes "bob"))
      times

handle_wallet_unstake_unchecked_example :
    let tx =
      stake_transaction checksum unstake
        (record { address = codes "eve"; amount = coins 5 })
        (pos 1700000000) in
    ((handle_wallet_unstake checksum sample_server (post wallet_unstake (codes "eve")) times).0
      ≡ json_ok (pending tx.tx_id))
    × IsTaken sample_server tx
        (handle_wallet_unstake checksum sample_server (post wallet_unstake (codes "eve")) times).1
        (handle_wallet_unstake checksum sample_server (post wallet_unstake (codes "eve")) times).2
unfolding by_method
handle_wallet_unstake_unchecked_example =
    handle_wallet_unstake_unchecked by_length checksum sample_server
      (post wallet_unstake (codes "eve")) times (unfold is_post str_eq in refl)
      (unfold is_blank str_eq in refl) (unfold fixed in refl)

serve-IsUnchanged_example :
    IsUnchanged sample_server
      (serve checksum plain_base58 by_length plain_file sample_server (post rpc (2 ∷ [])) times)
unfolding by_method
serve-IsUnchanged_example =
    serve-IsUnchanged checksum plain_base58 by_length plain_file sample_server (post rpc (2 ∷ []))
      times tt

handle_inputs-IsSane_example :
    IsSane checksum
      (handle_inputs checksum plain_base58 by_length plain_file
        (record sample_server { node = record sample_node { chain = empty_chain } })
        (from_peer (connected (codes "c"))
          ∷ from_client (post rpc (1 ∷ put_big 8 0)) times
          ∷ from_peer (received (codes "c") (3 ∷ put_big 8 1))
          ∷ from_peer (disconnected (codes "c"))
          ∷ [])).0.node
handle_inputs-IsSane_example =
    handle_inputs-IsSane checksum plain_base58 by_length plain_file entries-IsBolt by_height-IsJson
      (record sample_server { node = record sample_node { chain = empty_chain } })
      (from_peer (connected (codes "c"))
        ∷ from_client (post rpc (1 ∷ put_big 8 0)) times
        ∷ from_peer (received (codes "c") (3 ∷ put_big 8 1))
        ∷ from_peer (disconnected (codes "c"))
        ∷ [])
      (unfold get_block_count get_best_height entries find in omega arith)
      (record {
        linked = empty_chain-IsLinked;
        peers = (unfold lookup str_eq in refl, (unfold lookup in refl, tt));
      })
