-- ===== src/Genesis.antt =====
-- internal/blockchain/genesis.go: the first block. Reading the configured time is a parameter, of
-- which `none` is an error; `now` is the clock's reading.
use devinsidercoin.Prelude.{ℕ, ◌≡◌, refl, Option, none, some, List, [], ◌∷◌, Str, codes}
use devinsidercoin.Prelude.Int.{ℤ}
use devinsidercoin.Prelude.Float64.{Float64}
use devinsidercoin.Config.{NetworkConfig}
use devinsidercoin.Block.{
  Block, BlockHeader, Transaction, coinbase, zero_hash, compute_hash, compute_tx_id,
  compute_merkle_root, merkle_loop,
}
use devinsidercoin.Storage.{◌>>=◌}
use devinsidercoin.Storage.Encoding.{Json}

module _ (sum256 : List ℕ → List ℕ) {F : Type 0} ⦃fl : Float64 F⦄ ⦃js : Json F⦄ where
  unfoldable pub genesis_coinbase : ℤ → Transaction F
  genesis_coinbase ts =
      let tx : Transaction F = record {
        tx_id = [];
        type = coinbase;
        from = [];
        to = codes "genesis";
        amount = fl.literal 0 0;
        fee = fl.literal 0 0;
        timestamp = ts;
        signature = [];
        outputs = record { address = codes "genesis"; amount = fl.literal 0 0 } ∷ [];
      } in
      record tx { tx_id = compute_tx_id sum256 js.marshal_core tx }

  -- `none` means that the fuel of the Merkle root ran out.
  unfoldable pub create_genesis_block : (Str → Option ℤ) → NetworkConfig F → ℤ → Option (Block F)
  create_genesis_block parse_time cfg now = do
    let ts : ℤ = elim (parse_time cfg.genesis_timestamp) [ none ↦ now | some t ↦ t ]
    let tx = genesis_coinbase ts
    merkle ← compute_merkle_root sum256 js.marshal_tx (tx ∷ [])
    let header : BlockHeader = record {
      version = 1;
      prev_hash = zero_hash;
      merkle_root = merkle;
      timestamp = ts;
      bits = cfg.min_difficulty_bits;
      nonce = 0;
      height = 0;
    }
    some (record { header = header; transactions = tx ∷ []; hash = compute_hash sum256 header })

  -- What start-up relies on in a genesis block.
  pub record IsGenesis (cfg : NetworkConfig F) (block : Block F) : Type 0 where
    pub height : block.header.height ≡ 0
    pub hash : block.hash ≡ compute_hash sum256 block.header
    pub bits : block.header.bits ≡ cfg.min_difficulty_bits
    pub prev_hash : block.header.prev_hash ≡ zero_hash

  -- There is always a genesis block, at height zero, with its header's hash, the minimal bits and a
  -- predecessor of zeros.
  pub create_genesis_block-IsGenesis :
      (parse_time : Str → Option ℤ) (cfg : NetworkConfig F) (now : ℤ)
      → (block : Block F) × (create_genesis_block parse_time cfg now ≡ some block)
        × IsGenesis cfg block
  unfolding create_genesis_block compute_merkle_root merkle_loop
  create_genesis_block-IsGenesis parse_time cfg now =
      (_, refl, record { height = refl; hash = refl; bits = refl; prev_hash = refl })
