-- ===== src/Pow/Compact.antt =====
-- `TargetToBits` and `BitsToTarget`: what the compact form keeps of a target.
use native.Mathlib.Nat.{mul-le-mul, le_refl}
use devinsidercoin.Prelude.{
  ℕ, zero, suc, ◌+◌, ◌*◌, ◌/◌, ◌%◌, ◌^◌, ◌≤◌, ◌<◌, ◌≡◌, refl, sym, ap, ◌∙◌, inl, inr, List, [], ◌∷◌,
  length, All, arith, false, leb, ◌==◌, Bool-cases,
}
use devinsidercoin.Prelude.Powers.{pow2-bytes, pow256-suc, pow256_pos, pow256_mono}
use devinsidercoin.Bytes.{IsByte, of_big, big_bytes}
use devinsidercoin.Bytes.Width.{of_big-cons, of_big-lt}
use devinsidercoin.Bytes.Big.{Leads, big_bytes-IsBytesOf, big_bytes-Leads}
use devinsidercoin.Pow.{bits_to_target, target_to_bits, leading_bytes, pack_bits}

-- The compact form with exponent `k + 3` stands for the mantissa followed by `k` zero bytes.
pub bits_to_target-pack :
    (k m : ℕ)
    → k + 3 < 256
    → m < 2 ^ 23
    → bits_to_target ((k + 3) * 2 ^ 24 % 2 ^ 32 + m) ≡ m * 256 ^ k
unfolding bits_to_target
bits_to_target-pack zero m hk hm = ground arith
bits_to_target-pack (suc k) m hk hm =
    let bits = (suc k + 3) * 2 ^ 24 % 2 ^ 32 + m in
    let exponent : bits / 2 ^ 24 ≡ suc k + 3 = omega arith in
    let mantissa : bits % 2 ^ 23 ≡ m = omega arith in
    rw (exponent, mantissa) (ground (arith, pow2-bytes (suc k)))

-- `r` is `t` with all but its leading two or three bytes cleared.
pub record IsRounded (t r : ℕ) : Type 0 where
  pub mantissa : ℕ
  pub shift : ℕ
  pub value : r ≡ mantissa * 256 ^ shift
  pub below : r ≤ t
  pub near : t < r + 256 ^ shift
  pub mantissa_ge : 2 ^ 15 ≤ mantissa
  pub mantissa_lt : mantissa < 2 ^ 23

-- The leading three bytes over the rest.
pub leading_bytes_split :
    (a b c : ℕ) (rest : List ℕ)
    → of_big (a ∷ b ∷ c ∷ rest) ≡ (a * 2 ^ 16 + b * 2 ^ 8 + c) * 256 ^ length rest + of_big rest
leading_bytes_split a b c rest = omega (
  arith,
  of_big-cons a (b ∷ c ∷ rest),
  of_big-cons b (c ∷ rest),
  of_big-cons c rest,
  ap (λ (p : ℕ). a * p) (pow256-suc (suc (length rest))),
  ap (λ (p : ℕ). a * (256 * p)) (pow256-suc (length rest)),
  ap (λ (p : ℕ). b * p) (pow256-suc (length rest)),
)

-- The exponent is at most `k`, by the size of the number.
shift_le : (m l k t : ℕ) → m * 256 ^ l ≤ t → t < 2 ^ 23 * 256 ^ k → 2 ^ 16 ≤ m → l ≤ k
shift_le m l k t below above m_ge = elim (Bool-cases (leb l k)) [
  | inl e ↦ ground arith
  | inr e ↦ absurd (
      omega (
        arith,
        pow256_mono (suc k) l (ground arith),
        pow256-suc k,
        pow256_pos k,
        mul-le-mul m_ge (le_refl (256 ^ l)),
      ))
]

shift_lt : (m l k t : ℕ) → m * 256 ^ l ≤ t → t < 2 ^ 23 * 256 ^ k → 2 ^ 23 ≤ m → suc l ≤ k
shift_lt m l k t below above m_ge = elim (Bool-cases (leb (suc l) k)) [
  | inl e ↦ ground arith
  | inr e ↦
      absurd (omega (arith, pow256_mono k l (ground arith), mul-le-mul m_ge (le_refl (256 ^ l))))
]

-- The last byte of `m` joins the rest.
high_part :
    (m l r : ℕ)
    → r < 256 ^ l
    → (m / 2 ^ 8 * 256 ^ suc l ≤ m * 256 ^ l + r)
      × (m * 256 ^ l + r < m / 2 ^ 8 * 256 ^ suc l + 256 ^ suc l)
high_part m l r r_lt =
    let parts : m ≡ m / 2 ^ 8 * 256 + m % 256 = omega arith in
    let byte : m % 256 ≤ 255 = omega arith in
    omega (
      arith,
      pow256-suc l,
      ap (λ (p : ℕ). m / 2 ^ 8 * p) (pow256-suc l),
      ap (λ (n : ℕ). n * 256 ^ l) parts,
      mul-le-mul byte (le_refl (256 ^ l)),
    )

-- Packing the leading bytes `m`, which are followed by `l` more bytes that stand for `r`.
pack_bits-IsRounded :
    (m l r k : ℕ)
    → 2 ^ 16 ≤ m
    → m < 2 ^ 24
    → r < 256 ^ l
    → m * 256 ^ l + r < 2 ^ 23 * 256 ^ k
    → k + 3 < 256
    → IsRounded (m * 256 ^ l + r) (bits_to_target (pack_bits (l + 3) m))
unfolding pack_bits
pack_bits-IsRounded m l r k m_ge m_lt r_lt above fits = elim (Bool-cases (m / 2 ^ 23 % 2 == 0)) [
  | inl e ↦
      let small : m < 2 ^ 23 = ground arith in
      let le = shift_le m l k (m * 256 ^ l + r) (omega arith) above m_ge in
      rw (e, bits_to_target-pack l m (omega arith) small)
        (record {
          mantissa = m;
          shift = l;
          value = refl;
          below = omega arith;
          near = omega arith;
          mantissa_ge = omega arith;
          mantissa_lt = small;
        })
  | inr e ↦
      let large : 2 ^ 23 ≤ m = ground arith in
      let lt = shift_lt m l k (m * 256 ^ l + r) (omega arith) above large in
      let up : l + 3 + 1 ≡ suc l + 3 = omega arith in
      rw (e, up, bits_to_target-pack (suc l) (m / 2 ^ 8) (omega arith) (omega arith))
        (record {
          mantissa = m / 2 ^ 8;
          shift = suc l;
          value = refl;
          below = (high_part m l r r_lt).0;
          near = (high_part m l r r_lt).1;
          mantissa_ge = omega arith;
          mantissa_lt = omega arith;
        })
]

target_to_bits_bytes :
    (t k : ℕ) (bs : List ℕ)
    → of_big bs ≡ t
    → All IsByte bs
    → Leads bs
    → 2 ^ 16 ≤ t
    → t < 2 ^ 23 * 256 ^ k
    → k + 3 < 256
    → IsRounded t (bits_to_target (pack_bits (length bs) (leading_bytes bs)))
unfolding leading_bytes
target_to_bits_bytes t k [] e bytes leads t_ge above fits = absurd leads
target_to_bits_bytes t k (a ∷ []) e bytes leads t_ge above fits =
    absurd (omega (arith, e, of_big-lt (a ∷ []) bytes))
target_to_bits_bytes t k (a ∷ b ∷ []) e bytes leads t_ge above fits =
    absurd (omega (arith, e, of_big-lt (a ∷ b ∷ []) bytes))
target_to_bits_bytes t k (a ∷ b ∷ c ∷ rest) e bytes leads t_ge above fits =
    let m = a * 2 ^ 16 + b * 2 ^ 8 + c in
    let split = sym e ∙ leading_bytes_split a b c rest in
    let count : length (a ∷ b ∷ c ∷ rest) ≡ length rest + 3 = omega arith in
    rw (count, split)
      (pack_bits-IsRounded m (length rest) (of_big rest) k (omega arith) (omega arith)
        (of_big-lt rest bytes.1.1.1) (omega (arith, split)) fits)

-- A target of at least 2 ^ 16, and below 2 ^ 23 followed by 252 bytes (which every 256-bit target
-- is), is rounded down by its compact form to two or three leading bytes.
pub bits_to_target-target_to_bits :
    (t k : ℕ)
    → 2 ^ 16 ≤ t
    → t < 2 ^ 23 * 256 ^ k
    → k + 3 < 256
    → IsRounded t (bits_to_target (target_to_bits t))
unfolding target_to_bits
bits_to_target-target_to_bits t k t_ge above fits =
    let whole = big_bytes-IsBytesOf t in
    let nonzero : (t == 0) ≡ false = ground arith in
    rw nonzero (
      target_to_bits_bytes t k (big_bytes t) whole.value whole.bytes
        (big_bytes-Leads t (omega arith)) t_ge above fits)
