-- ===== src/Miner.antt =====
-- cmd/dvcminer/main.go: the miner's own header hash, target and proof of work test, and the nonce
-- loop. Its `BlockHeader` has the fields of the node's, so the node's record serves. The printed hash
-- rate is left out; the messages to the node are in Miner/Client.
pub mod Agreement
pub mod Loop
pub mod Client
pub mod Posts
pub mod Rounds
pub mod Success
use devinsidercoin.Prelude.{
  ℕ, zero, suc, ◌+◌, ◌-◌, ◌*◌, ◌/◌, ◌%◌, ◌^◌, Bool, Option, none, some, List, [], ◌∷◌, ◌++◌, length,
  take, replicate, ltb, leb, if◌then◌else◌, Str,
}
use devinsidercoin.Prelude.Int.{to_word64}
use devinsidercoin.Bytes.{decode_string, encode_to_string, of_big}
use devinsidercoin.Block.{Block, BlockHeader}

pub append_u32 : List ℕ → ℕ → List ℕ
append_u32 buf v =
    buf ++ ((v % 256) ∷ (v / 2 ^ 8 % 256) ∷ (v / 2 ^ 16 % 256) ∷ (v / 2 ^ 24 % 256) ∷ [])

pub append_u64 : List ℕ → ℕ → List ℕ
append_u64 buf v =
    buf
    ++ ((v % 256)
        ∷ (v / 2 ^ 8 % 256)
        ∷ (v / 2 ^ 16 % 256)
        ∷ (v / 2 ^ 24 % 256)
        ∷ (v / 2 ^ 32 % 256)
        ∷ (v / 2 ^ 40 % 256)
        ∷ (v / 2 ^ 48 % 256)
        ∷ (v / 2 ^ 56 % 256)
        ∷ [])

pub decode_hex_pad : Str → ℕ → List ℕ
decode_hex_pad s size =
    let b = (decode_string s).0 in
    if ltb (length b) size then replicate (size - length b) 0 ++ b else take size b

-- The buffer that `computeHash` fills.
pub header_bytes : BlockHeader → List ℕ
header_bytes h =
    let versioned = append_u32 [] h.version in
    let linked = versioned ++ decode_hex_pad h.prev_hash 32 in
    let rooted = linked ++ decode_hex_pad h.merkle_root 32 in
    let timed = append_u64 rooted (to_word64 h.timestamp) in
    append_u64 (append_u32 timed h.bits) h.nonce

-- `compact & 0x007fffff` is the remainder by 2 ^ 23.
pub compact_to_big : ℕ → ℕ
compact_to_big compact =
    let mantissa = compact % 2 ^ 23 in
    let exponent = compact / 2 ^ 24 in
    if leb exponent 3
    then mantissa / 2 ^ (8 * (3 - exponent))
    else mantissa * 2 ^ (8 * (exponent - 3))

pub check_pow : Str → ℕ → Bool
check_pow hash bits = leb (of_big (decode_string hash).0) (compact_to_big bits)

module _ (sum256 : List ℕ → List ℕ) where
  pub compute_hash : BlockHeader → Str
  compute_hash h = encode_to_string (sum256 (sum256 (header_bytes h)))

  -- The loop over nonces, with `left` of them to go: the header with the first nonce that passes,
  -- and its hash.
  pub mine_from : ℕ → ℕ → BlockHeader → Option (BlockHeader × Str)
  mine_from zero nonce h = none
  mine_from (suc left) nonce h =
      let tried = record h { nonce = nonce } in
      let rest = mine_from left (nonce + 1) h in
      if check_pow (compute_hash tried) tried.bits then some (tried, compute_hash tried) else rest

  -- `for nonce := 0; nonce < ^uint64(0)`
  pub mine : BlockHeader → Option (BlockHeader × Str)
  mine = mine_from (2 ^ 64 - 1) 0

  -- A round of the loop of `main`, from a template to the block that is submitted.
  unfoldable pub mine_block : {F : Type 0} → Block F → Option (Block F)
  mine_block t = elim (mine t.header) [
    | none ↦ none
    | some found ↦ some (record t { header = found.0; hash = found.1 })
  ]
