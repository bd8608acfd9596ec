-- ===== src/Lib.antt =====
-- DevInsiderCoin: a proof-of-work chain with staking rewards. A node keeps the chain in memory and in
-- a bbolt file, serves block templates over RPC and gossips with its peers; a separate miner asks for
-- a template, looks for a nonce, and submits the block.
--
-- How the parts work together. `Blockchain` (internal/blockchain/chain.go) holds the configuration,
-- the store, the maps of balances and stakes, the mempool and the last block. `CreateBlockTemplate`
-- makes a block out of the mempool; cmd/dvcminer/main.go mines it; `AddBlock` validates the block,
-- applies its transactions to the maps, commits them with `Store.CommitBlock` and drops them from the
-- mempool. Every method holds a lock, so it is one step: a function of the state it is called in.
-- `Node` (internal/network/node.go) passes blocks and transactions between the chain and the peers,
-- `Server` (internal/rpc/server.go) between the chain, the node, the wallets and the clients. One
-- message or one request is one step of theirs, which yields the new state and what is sent; a
-- sequence of steps is a list. Two nodes that talk to each other take turns: in a round each handles
-- all that the other has sent in the last one (Node/Handshake). The miner's rounds are functions of
-- what `http.Post` does to the world; Miner/Posts puts `handleRPC` of a node in its place.
--
-- Which file models which part:
--   Config      internal/config/config.go: the parameters and the defaults of `LoadConfig`.
--   Block       internal/blockchain/block.go: headers, transactions, blocks, `Serialize`,
--               `ComputeHash`, `ComputeTxID`, `ComputeMerkleRoot`.
--   Pow         internal/blockchain/pow.go: compact targets, `CheckProofOfWork`, `CalcNextBits`, the
--               progressive floor.
--   Stakes      internal/blockchain/pos.go: the stakes and `CalcPOSRewards`.
--   Storage     internal/storage/store.go: the buckets, `CommitBlock` and the queries;
--               Storage/Opening: `NewStore`.
--   Ledger      internal/blockchain/chain.go: the loop of `AddBlock` over the transactions.
--   Chain       internal/blockchain/chain.go: `validateBlock` and `AddBlock`; Chain/Mempool:
--               `AddToMempool`; Chain/Template: `CalcBlockReward`, `calcNextBitsFromDB`,
--               `CreateBlockTemplate`; Chain/Start: `NewBlockchain`, `migrateFromJSON`;
--               Chain/Queries: `GetTransactions`, `GetBlocks`, `GetBlockByHash`.
--   Genesis     internal/blockchain/genesis.go: `CreateGenesisBlock`.
--   Node        internal/network/node.go: the peers, `handleMessage`, the broadcasts; Node/Session:
--               `Peer.Send` and `handlePeer` on the bytes of a connection.
--   Wallet      internal/wallet/wallet.go: the wallets, their keys, signatures and file.
--   Rpc         internal/rpc/server.go: the requests and answers; Rpc/Mining: the JSON-RPC methods;
--               Rpc/Wallets and Rpc/Info: the REST handlers; Rpc/Serve: `Start` and `withCORS`.
--   Startup     cmd/dvcnode/main.go: the server that `main` puts together, ports and peers;
--               Startup/Main: `main` up to the wait for a signal.
--   Miner       cmd/dvcminer/main.go: the miner's hash, target, test and nonce loop; Miner/Client:
--               `getBlockTemplate`, `submitBlock` and the loop of `main`.
--   Bytes       encoding/binary, encoding/hex and big.Int.Bytes of the Go library, as far as the
--               program uses them.
--   Prelude     shared names, Go strings (lists of bytes), Go maps (association lists), int64.
--   Examples    concrete parameters, and the theorems applied to them.
--
-- Parameters. SHA-256 is a function on byte lists, of which some theorems ask that it gives 32
-- bytes. encoding/json is the record `Json` for blocks and database values, `Wire` for messages,
-- `RpcJson` for requests, `WalletJson` for wallets and `MinerJson` for the miner's requests and
-- answers; decoding that ignores errors is a total function, and some theorems ask that what is
-- decoded survives its encoding. bbolt is the record `Bolt` with the laws `IsBolt`: a read sees
-- the last write to its key, a cursor lists each key once with its value in the order of the
-- keys, creating a bucket keeps all keys, a blank key is refused and a key and a value within the
-- limits are not. Ed25519 is the record `Ed25519`, whose key pairs are asked to verify their
-- signatures. Generated keys, base58, the time of the genesis block and what a write leaves in
-- the wallets' file are arguments. bufio is the record `Writer` and a function `Scan`, which
-- yields the lines of a connection as far as they fit its buffer of 10 MB. HTTP carries a request
-- of the miner and the answer (`render`). The operating system is the record `Machine`. float64
-- is the record `Float64` without laws, so sums are stated as the left folds that the code
-- computes. The clock's readings are arguments. The order of a list that stands for a Go map is
-- the order in which `range` visits it; Go leaves that order open, and two loops over one map
-- here take the same.
--
-- Machine integers. uint32 and uint64 values are natural numbers with their wrap-around written out;
-- int64 is `Prelude.Int`. Heights are asked to be below 2 ^ 63, where the store's int64 counts.
--
-- Fuel. The Merkle loop gets a round for each transaction, and each round halves the hashes. The
-- bytes of a big.Int get a digit for each unit of the number. The nonce loop has the source's own
-- bound.
--
-- Not modelled: making directories, closing the database file, accepting and closing connections,
-- HTTP, its headers and the start of its server, the texts of answers and errors, renaming the
-- older file, signals, the miner's pause after an error, and logging; blocks, stakes and wallets
-- that are null in a file; and the queries of internal/blockchain that only read a field or call
-- the store. Steps of two connections that the locks let overlap are taken one after the other:
-- each change of the chain is one call under the chain's lock.
pub mod Prelude
pub mod Bytes
pub mod Config
pub mod Block
pub mod Pow
pub mod Miner
pub mod Stakes
pub mod Genesis
pub mod Node
pub mod Wallet
pub mod Rpc
pub mod Startup
pub mod Storage
pub mod Ledger
pub mod Chain
pub mod Examples
