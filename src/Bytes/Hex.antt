-- ===== src/Bytes/Hex.antt =====
-- Hexadecimal text reads back.
use devinsidercoin.Prelude.{
  ℕ, ◌*◌, ◌/◌, ◌%◌, ◌<◌, ◌≡◌, refl, Bool, false, Option, none, some, List, [], ◌∷◌, length, All,
  arith,
}
use devinsidercoin.Bytes.{nibble, hex_digit, decode_pair, decode_string, encode_to_string, IsByte}

nibble-hex_digit : (n : ℕ) → n < 16 → nibble (hex_digit n) ≡ some n
unfolding nibble hex_digit
nibble-hex_digit n h = ground arith

-- Decoding the encoding gives the bytes back, with no fault.
pub decode_string-encode_to_string :
    (bs : List ℕ) → All IsByte bs → decode_string (encode_to_string bs) ≡ (bs, false)
unfolding decode_string encode_to_string
decode_string-encode_to_string [] h = refl
decode_string-encode_to_string (b ∷ bs) h = ground (
  arith,
  nibble-hex_digit (b / 16) (omega arith),
  nibble-hex_digit (b % 16) (omega arith),
  decode_string-encode_to_string bs h.1,
)

pub length-encode_to_string : (bs : List ℕ) → length (encode_to_string bs) ≡ 2 * length bs
unfolding encode_to_string
length-encode_to_string [] = refl
length-encode_to_string (b ∷ bs) = omega (arith, length-encode_to_string bs)

nibble-lt : (c v : ℕ) → nibble c ≡ some v → v < 16
unfolding nibble
nibble-lt c v h = ground arith

decode_pair-IsByte :
    (hi lo : Option ℕ) (rest : List ℕ × Bool)
    → ((v : ℕ) → hi ≡ some v → v < 16)
    → ((v : ℕ) → lo ≡ some v → v < 16)
    → All IsByte rest.0
    → All IsByte (decode_pair hi lo rest).0
unfolding decode_pair
decode_pair-IsByte (some x) (some y) rest hx hy h = (omega (arith, hx x refl, hy y refl), h)
decode_pair-IsByte (some x) none rest hx hy h = tt
decode_pair-IsByte none lo rest hx hy h = tt

-- What is decoded, with or without a fault, are bytes.
pub decode_string-IsByte : (s : List ℕ) → All IsByte (decode_string s).0
unfolding decode_string
decode_string-IsByte [] = tt
decode_string-IsByte (a ∷ []) = tt
decode_string-IsByte (a ∷ b ∷ s) =
    decode_pair-IsByte (nibble a) (nibble b) (decode_string s) (nibble-lt a) (nibble-lt b)
      (decode_string-IsByte s)
