-- ===== src/Block/Header.antt =====
-- The serialized header: its length, and which fields it determines.
use devinsidercoin.Prelude.{
  ℕ, ◌-◌, ◌<◌, ◌^◌, ◌≡◌, ◌↔◌, ◌∙◌, refl, sym, ap, inl, inr, Bool-cases, List, [], ◌∷◌, ◌++◌, length,
  length-append, length-replicate, length-take, replicate, All, All-append, All-take, All-replicate,
  arith, ltb, Str, take_all, le→ltb_false,
}
use devinsidercoin.Prelude.Int.{ℤ, pos, negsuc, to_word64, to_word64-lt}
use devinsidercoin.Bytes.{IsByte, put_little, of_little, decode_string, encode_to_string}
use devinsidercoin.Bytes.Width.{length-put_little, of_little-put_little}
use devinsidercoin.Bytes.Hex.{decode_string-IsByte, decode_string-encode_to_string}
use devinsidercoin.Block.{BlockHeader, pad_hash_bytes, serialize}

pub length-pad_hash_bytes : (s : Str) → length (pad_hash_bytes s) ≡ 32
unfolding pad_hash_bytes
length-pad_hash_bytes s =
    let decoded = (decode_string s).0 in
    ground (
      arith,
      length-append (replicate (32 - length decoded) 0) decoded,
      length-replicate {0} {A = ℕ} (32 - length decoded) 0,
      length-take 32 decoded,
    )

pub pad_hash_bytes-IsByte : (s : Str) → All IsByte (pad_hash_bytes s)
unfolding pad_hash_bytes
pad_hash_bytes-IsByte s =
    let decoded = (decode_string s).0 in
    elim (Bool-cases (ltb (length decoded) 32)) [
      | inl e ↦ rw e (
          All-append IsByte (replicate (32 - length decoded) 0) decoded
            (All-replicate IsByte (32 - length decoded) 0 (omega arith)) (decode_string-IsByte s))
      | inr e ↦ rw e (All-take IsByte 32 decoded (decode_string-IsByte s))
    ]

-- A hash of 32 bytes, written in hexadecimal, is read back whole.
pub pad_hash_bytes-encode_to_string :
    (bs : List ℕ) → length bs ≡ 32 → All IsByte bs → pad_hash_bytes (encode_to_string bs) ≡ bs
unfolding pad_hash_bytes
pad_hash_bytes-encode_to_string bs len bytes =
    rw (decode_string-encode_to_string bs bytes, le→ltb_false (length bs) 32 (omega arith))
      (take_all 32 bs (omega arith))

append_injective {ℓ} :
    {A : Type ℓ} (xs ys us vs : List A)
    → length xs ≡ length ys
    → xs ++ us ≡ ys ++ vs
    → (xs ≡ ys) × (us ≡ vs)
append_injective [] [] us vs len e = (refl, e)
append_injective [] (y ∷ ys) us vs len e = absurd (omega arith)
append_injective (x ∷ xs) [] us vs len e = absurd (omega arith)
append_injective (x ∷ xs) (y ∷ ys) us vs len e =
    let (tails, rest) = append_injective xs ys us vs (omega arith) (cc) in (cc, rest)

put_little_injective :
    (n v w : ℕ) → v < 256 ^ n → w < 256 ^ n → put_little n v ≡ put_little n w → v ≡ w
put_little_injective n v w hv hw e =
    sym (of_little-put_little n v hv) ∙ ap of_little e ∙ of_little-put_little n w hw

abbrev pub IsInt64 : ℤ → Type 0
IsInt64 (pos n) = n < 2 ^ 63
IsInt64 (negsuc n) = n < 2 ^ 63

to_word64_injective : (x y : ℤ) → IsInt64 x → IsInt64 y → to_word64 x ≡ to_word64 y → x ≡ y
unfolding to_word64
to_word64_injective x y hx hy e = ground arith

-- Every field is in the range of its Go type, and the two hashes are 32 bytes in lower case
-- hexadecimal, as `EncodeToString` writes them.
pub record IsEncodable (h : BlockHeader) : Type 0 where
  pub version_lt : h.version < 2 ^ 32
  pub timestamp_fits : IsInt64 h.timestamp
  pub bits_lt : h.bits < 2 ^ 32
  pub nonce_lt : h.nonce < 2 ^ 64
  pub prev_hash_hex : encode_to_string (pad_hash_bytes h.prev_hash) ≡ h.prev_hash
  pub merkle_root_hex : encode_to_string (pad_hash_bytes h.merkle_root) ≡ h.merkle_root

-- The serialized header is 88 bytes long, whatever the header.
pub length-serialize : (h : BlockHeader) → length (serialize h) ≡ 88
unfolding serialize
length-serialize h = simp (length-append, length-put_little, length-pad_hash_bytes)

serialize_parts :
    (g h : BlockHeader)
    → serialize g ≡ serialize h
    → (put_little 4 g.version ≡ put_little 4 h.version)
      × (pad_hash_bytes g.prev_hash ≡ pad_hash_bytes h.prev_hash)
      × (pad_hash_bytes g.merkle_root ≡ pad_hash_bytes h.merkle_root)
      × (put_little 8 (to_word64 g.timestamp) ≡ put_little 8 (to_word64 h.timestamp))
      × (put_little 4 g.bits ≡ put_little 4 h.bits)
      × (put_little 8 g.nonce ≡ put_little 8 h.nonce)
unfolding serialize
serialize_parts g h e =
    let (a, e1) = append_injective _ _ _ _ (little 4 _ _) e in
    let (b, e2) = append_injective _ _ _ _ (padded _ _) e1 in
    let (c, e3) = append_injective _ _ _ _ (padded _ _) e2 in
    let (d, e4) = append_injective _ _ _ _ (little 8 _ _) e3 in
    let (f, last) = append_injective _ _ _ _ (little 4 _ _) e4 in (a, b, c, d, f, last)
  where
    little : (n v w : ℕ) → length (put_little n v) ≡ length (put_little n w)
    little n v w = length-put_little n v ∙ sym (length-put_little n w)

    padded : (s t : Str) → length (pad_hash_bytes s) ≡ length (pad_hash_bytes t)
    padded s t = length-pad_hash_bytes s ∙ sym (length-pad_hash_bytes t)

-- Two headers whose numbers fit their widths and whose hashes are 32 bytes in lower-case
-- hexadecimal have the same serialization exactly when they agree on every field but the height,
-- which is not serialized.
pub serialize_iff :
    (g h : BlockHeader)
    → IsEncodable g
    → IsEncodable h
    → (serialize g ≡ serialize h) ↔ (record g { height = h.height } ≡ h)
serialize_iff g h ok_g ok_h = (
  λ e.
      let (version, prev, merkle, time, bits, nonce) = serialize_parts g h e in
      let same_version =
        put_little_injective 4 g.version h.version ok_g.version_lt ok_h.version_lt version in
      let same_time =
        to_word64_injective g.timestamp h.timestamp ok_g.timestamp_fits ok_h.timestamp_fits
          (put_little_injective 8 _ _ (to_word64-lt _) (to_word64-lt _) time) in
      let same_bits = put_little_injective 4 g.bits h.bits ok_g.bits_lt ok_h.bits_lt bits in
      let same_nonce = put_little_injective 8 g.nonce h.nonce ok_g.nonce_lt ok_h.nonce_lt nonce in
      let same_prev = sym ok_g.prev_hash_hex ∙ ap encode_to_string prev ∙ ok_h.prev_hash_hex in
      let same_merkle =
        sym ok_g.merkle_root_hex ∙ ap encode_to_string merkle ∙ ok_h.merkle_root_hex in
      λ i. record {
        version = same_version i;
        prev_hash = same_prev i;
        merkle_root = same_merkle i;
        timestamp = same_time i;
        bits = same_bits i;
        nonce = same_nonce i;
        height = h.height;
      },
  λ e. unheighted g h.height ∙ ap serialize e,
)
  where
    unheighted : (g : BlockHeader) (n : ℕ) → serialize g ≡ serialize (record g { height = n })
    unheighted g n = unfold serialize in refl
