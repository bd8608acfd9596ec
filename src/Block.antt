-- ===== src/Block.antt =====
-- internal/blockchain/block.go: headers, transactions and blocks, their hashes and the Merkle root.
-- A Go string is a list of bytes; the `Type` of a transaction, of which the code compares five
-- values, is an enumeration with a case for any other text. SHA-256 and the JSON encoding of a
-- transaction are parameters.
pub mod Header
pub mod Merkle
use devinsidercoin.Prelude.{
  ℕ, zero, suc, ◌-◌, ◌+◌, Bool, Option, none, some, List, [], ◌∷◌, ◌++◌, map, length, take,
  replicate, ltb, if◌then◌else◌, Str, codes,
}
use devinsidercoin.Prelude.Int.{ℤ, to_word64}
use devinsidercoin.Prelude.Float64.{Float64}
use devinsidercoin.Bytes.{put_little, decode_string, encode_to_string}

pub record BlockHeader : Type 0 where
  pub version : ℕ
  pub prev_hash : Str
  pub merkle_root : Str
  pub timestamp : ℤ
  pub bits : ℕ
  pub nonce : ℕ
  pub height : ℕ

pub record TxOutput (F : Type 0) : Type 0 where
  pub address : Str
  pub amount : F

pub data TxType : Type 0 where
  coinbase transfer stake unstake pos_reward : TxType
  other : Str → TxType

pub record Transaction (F : Type 0) : Type 0 where
  pub tx_id : Str
  pub type : TxType
  pub from : Str
  pub to : Str
  pub amount : F
  pub fee : F
  pub timestamp : ℤ
  pub signature : Str
  pub outputs : List (TxOutput F)

pub record Block (F : Type 0) : Type 0 where
  pub header : BlockHeader
  pub transactions : List (Transaction F)
  pub hash : Str

-- `strings.Repeat("0", 64)`
abbrev pub zero_hash : Str
zero_hash = replicate 64 b'0'

unfoldable pub pad_hash_bytes : Str → List ℕ
pad_hash_bytes hex_str =
    let decoded = (decode_string hex_str).0 in
    if ltb (length decoded) 32
    then replicate (32 - length decoded) 0 ++ decoded
    else take 32 decoded

-- `BlockHeader.Serialize`
unfoldable pub serialize : BlockHeader → List ℕ
serialize h =
    put_little 4 h.version
    ++ (pad_hash_bytes h.prev_hash
        ++ (pad_hash_bytes h.merkle_root
            ++ (put_little 8 (to_word64 h.timestamp)
                ++ (put_little 4 h.bits ++ put_little 8 h.nonce))))

-- The fields that go into a transaction's identifier.
pub record TxCore (F : Type 0) : Type 0 where
  pub type : TxType
  pub from : Str
  pub to : Str
  pub amount : F
  pub timestamp : ℤ

module _ (sum256 : List ℕ → List ℕ) where
  unfoldable pub sha256d : List ℕ → List ℕ
  sha256d bytes = sum256 (sum256 bytes)

  -- `BlockHeader.ComputeHash`
  unfoldable pub compute_hash : BlockHeader → Str
  compute_hash h = encode_to_string (sha256d (serialize h))

  -- One round of the Merkle loop: neighbours are joined, and a last one without a neighbour is
  -- joined with itself.
  unfoldable pub merkle_level : List (List ℕ) → List (List ℕ)
  merkle_level [] = []
  merkle_level (a ∷ []) = sha256d (a ++ a) ∷ []
  merkle_level (a ∷ b ∷ hashes) = sha256d (a ++ b) ∷ merkle_level hashes

  -- `for len(hashes) > 1`, and then `hashes[0]`; `none` means that the fuel ran out.
  unfoldable pub merkle_loop : ℕ → List (List ℕ) → Option (List ℕ)
  merkle_loop fuel [] = none
  merkle_loop fuel (a ∷ []) = some a
  merkle_loop zero (a ∷ b ∷ hashes) = none
  merkle_loop (suc fuel) (a ∷ b ∷ hashes) = merkle_loop fuel (merkle_level (a ∷ b ∷ hashes))

  module _ {F : Type 0} (marshal : Transaction F → List ℕ) where
    unfoldable pub leaf_hash : Transaction F → List ℕ
    leaf_hash tx = sha256d (marshal tx)

    -- `none` means that the fuel, a round for each transaction, ran out.
    unfoldable pub compute_merkle_root : List (Transaction F) → Option Str
    compute_merkle_root [] = some zero_hash
    compute_merkle_root (tx ∷ txs) =
        elim (merkle_loop (length (tx ∷ txs)) (map leaf_hash (tx ∷ txs))) [
          | none ↦ none
          | some root ↦ some (encode_to_string root)
        ]

  module _ {F : Type 0} (marshal_core : TxCore F → List ℕ) where
    -- `Transaction.ComputeTxID`
    unfoldable pub compute_tx_id : Transaction F → Str
    compute_tx_id tx =
        let core : TxCore F = record {
          type = tx.type;
          from = tx.from;
          to = tx.to;
          amount = tx.amount;
          timestamp = tx.timestamp;
        } in
        encode_to_string (sha256d (marshal_core core))

    -- `now` is the clock's `time.Now().Unix()`.
    unfoldable pub new_coinbase_transaction : ⦃fl : Float64 F⦄ → Str → F → ℤ → Transaction F
    new_coinbase_transaction ⦃fl⦄ miner reward now =
        let tx : Transaction F = record {
          tx_id = [];
          type = coinbase;
          from = [];
          to = miner;
          amount = reward;
          fee = fl.literal 0 0;
          timestamp = now;
          signature = [];
          outputs = record { address = miner; amount = reward } ∷ [];
        } in
        record tx { tx_id = compute_tx_id tx }

    unfoldable pub new_transfer_transaction : Str → Str → F → F → Str → ℤ → Transaction F
    new_transfer_transaction from to amount fee sig now =
        let tx : Transaction F = record {
          tx_id = [];
          type = transfer;
          from = from;
          to = to;
          amount = amount;
          fee = fee;
          timestamp = now;
          signature = sig;
          outputs = [];
        } in
        record tx { tx_id = compute_tx_id tx }
