-- ===== src/Examples/Mining.antt =====
-- The theorems on headers, Merkle roots and mining, applied.
use devinsidercoin.Prelude.{
  ℕ, ◌-◌, ◌^◌, ◌≡◌, ◌↔◌, refl, some, [], ◌∷◌, ◌++◌, arith, length, Str, codes,
}
use devinsidercoin.Bytes.{encode_to_string, decode_string}
use devinsidercoin.Block.{serialize, pad_hash_bytes, compute_merkle_root}
use devinsidercoin.Block.Header.{IsEncodable, serialize_iff}
use devinsidercoin.Block.Merkle.{compute_merkle_root_total, compute_merkle_root_duplicate}
use devinsidercoin.Miner.{mine}
use devinsidercoin.Miner.Loop.{IsFirst, mine-IsFirst}
use devinsidercoin.Examples.{checksum, checksum-IsByte, sample_header, payment, sending, by_height}

first_at-IsEncodable : (h : ℕ) → IsEncodable (record (sample_header 0) { height = h })
unfolding encode_to_string pad_hash_bytes decode_string
first_at-IsEncodable h = record {
  version_lt = omega arith;
  timestamp_fits = omega arith;
  bits_lt = omega arith;
  nonce_lt = omega arith;
  prev_hash_hex = refl;
  merkle_root_hex = refl;
}

serialize_iff_example :
    (serialize (sample_header 0) ≡ serialize (record (sample_header 0) { height = 9 }))
    ↔ (record (sample_header 0) { height = 9 } ≡ record (sample_header 0) { height = 9 })
serialize_iff_example =
    serialize_iff (sample_header 0) (record (sample_header 0) { height = 9 })
      (first_at-IsEncodable 0) (first_at-IsEncodable 9)

compute_merkle_root_total_example :
    (root : Str) × (compute_merkle_root checksum by_height.marshal_tx (sending ∷ []) ≡ some root)
    × (length root ≡ 64)
compute_merkle_root_total_example =
    compute_merkle_root_total checksum by_height.marshal_tx (λ bytes. (checksum-IsByte bytes).0)
      (sending ∷ [])

compute_merkle_root_duplicate_example :
    compute_merkle_root checksum by_height.marshal_tx
      (payment (codes "a6") ∷ sending ∷ [] ++ (payment (codes "c8") ∷ []))
    ≡ compute_merkle_root checksum by_height.marshal_tx
        (payment (codes "a6") ∷ sending ∷ [] ++ (payment (codes "c8") ∷ payment (codes "c8") ∷ []))
compute_merkle_root_duplicate_example =
    compute_merkle_root_duplicate checksum by_height.marshal_tx (payment (codes "a6")) sending
      (payment (codes "c8")) [] tt

mine-IsFirst_example :
    IsFirst checksum (sample_header 1) 0 (2 ^ 64 - 1) (mine checksum (sample_header 1))
mine-IsFirst_example = mine-IsFirst checksum (sample_header 1) checksum-IsByte
