-- ===== src/Miner/Agreement.antt =====
-- The miner and the node compute the same hash, target and test.
use devinsidercoin.Prelude.{ℕ, ◌≡◌, refl, ap, List, ◌++◌, append_assoc, arith, length, All}
use devinsidercoin.Bytes.{put_little, encode_to_string, IsByte}
use devinsidercoin.Bytes.Hex.{decode_string-encode_to_string}
use devinsidercoin.Block.{BlockHeader, pad_hash_bytes, serialize, sha256d}
use devinsidercoin.Block
use devinsidercoin.Pow.{bits_to_target, check_proof_of_work}
use devinsidercoin.Miner.{
  append_u32, append_u64, decode_hex_pad, header_bytes, compact_to_big, check_pow, compute_hash,
}

append_u32-put_little : (buf : List ℕ) (v : ℕ) → append_u32 buf v ≡ buf ++ put_little 4 v
unfolding append_u32 put_little
append_u32-put_little buf v = ground arith

append_u64-put_little : (buf : List ℕ) (v : ℕ) → append_u64 buf v ≡ buf ++ put_little 8 v
unfolding append_u64 put_little
append_u64-put_little buf v = ground arith

header_bytes-serialize : (h : BlockHeader) → header_bytes h ≡ serialize h
unfolding header_bytes decode_hex_pad serialize pad_hash_bytes
header_bytes-serialize h = simp (append_u32-put_little, append_u64-put_little, append_assoc)

-- The miner hashes a header exactly as the node does.
pub compute_hash-eq :
    (sum256 : List ℕ → List ℕ) (h : BlockHeader)
    → compute_hash sum256 h ≡ Block.compute_hash sum256 h
unfolding compute_hash Block.compute_hash sha256d
compute_hash-eq sum256 h =
    ap (λ bytes. encode_to_string (sum256 (sum256 bytes))) (header_bytes-serialize h)

-- The two readings of compact targets agree on all bits.
pub compact_to_big-eq : (bits : ℕ) → compact_to_big bits ≡ bits_to_target bits
unfolding compact_to_big bits_to_target
compact_to_big-eq bits = refl

-- On a hash of 32 bytes the miner's test and the node's agree. (On other texts the miner's test
-- ignores the faults that the node refuses.)
pub check_pow-eq :
    (digest : List ℕ) (bits : ℕ)
    → length digest ≡ 32
    → All IsByte digest
    → check_pow (encode_to_string digest) bits ≡ check_proof_of_work (encode_to_string digest) bits
unfolding check_pow check_proof_of_work
check_pow-eq digest bits len bytes =
    rw (decode_string-encode_to_string digest bytes, compact_to_big-eq bits) (ground arith)
