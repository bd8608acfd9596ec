-- ===== src/Bytes.antt =====
-- What the program uses of Go's encoding/binary, encoding/hex and math/big: fixed width integers in
-- both byte orders, hexadecimal text, and the bytes of a natural number.
pub mod Width
pub mod Hex
pub mod Big
use devinsidercoin.Prelude.{
  ℕ, zero, suc, ◌+◌, ◌-◌, ◌*◌, ◌/◌, ◌%◌, ◌<◌, Bool, true, false, ◌&&◌, Option, none, some, List, [],
  ◌∷◌, ◌++◌, foldl, leb, ltb, ◌==◌, if◌then◌else◌, Str,
}

-- `binary.LittleEndian.PutUint32` and `PutUint64`, at 4 and 8 bytes.
unfoldable pub put_little : ℕ → ℕ → List ℕ
put_little zero v = []
put_little (suc n) v = (v % 256) ∷ put_little n (v / 256)

-- `binary.BigEndian.PutUint64`, at 8 bytes.
unfoldable pub put_big : ℕ → ℕ → List ℕ
put_big zero v = []
put_big (suc n) v = put_big n (v / 256) ++ ((v % 256) ∷ [])

-- The number that little endian bytes stand for.
unfoldable pub of_little : List ℕ → ℕ
of_little [] = 0
of_little (b ∷ bs) = b + 256 * of_little bs

-- The number that big endian bytes stand for: `BigEndian.Uint64` and `big.Int.SetBytes`.
abbrev pub push_byte : ℕ → ℕ → ℕ
push_byte acc b = acc * 256 + b

unfoldable pub of_big : List ℕ → ℕ
of_big = foldl push_byte 0

-- `big.Int.Bytes`: big endian, with no leading zero; `fuel` bytes at most.
unfoldable pub big_bytes_fuel : ℕ → ℕ → List ℕ
big_bytes_fuel zero n = []
big_bytes_fuel (suc f) n =
    let rest = big_bytes_fuel f (n / 256) in if n == 0 then [] else rest ++ ((n % 256) ∷ [])

unfoldable pub big_bytes : ℕ → List ℕ
unfolding big_bytes_fuel
big_bytes n = big_bytes_fuel n n

-- The value of a hexadecimal digit in either case.
unfoldable pub nibble : ℕ → Option ℕ
nibble c =
    if leb b'0' c && leb c b'9'
    then some (c - b'0')
    else if leb b'a' c && leb c b'f'
    then some (c - b'a' + 10)
    else if leb b'A' c && leb c b'F'
    then some (c - b'A' + 10)
    else none

unfoldable pub decode_pair : Option ℕ → Option ℕ → List ℕ × Bool → List ℕ × Bool
decode_pair (some hi) (some lo) (bytes, failed) = ((hi * 16 + lo) ∷ bytes, failed)
decode_pair _ _ rest = ([], true)

-- `hex.DecodeString`: the bytes decoded before the first fault, and whether there was one.
unfoldable pub decode_string : Str → List ℕ × Bool
unfolding nibble decode_pair
decode_string [] = ([], false)
decode_string (a ∷ []) = ([], true)
decode_string (a ∷ b ∷ s) = decode_pair (nibble a) (nibble b) (decode_string s)

unfoldable pub hex_digit : ℕ → ℕ
hex_digit n = if ltb n 10 then n + b'0' else n - 10 + b'a'

-- `hex.EncodeToString`
unfoldable pub encode_to_string : List ℕ → Str
unfolding hex_digit
encode_to_string [] = []
encode_to_string (b ∷ bs) = hex_digit (b / 16) ∷ hex_digit (b % 16) ∷ encode_to_string bs

abbrev pub IsByte : ℕ → Type 0
IsByte b = b < 256
