-- ===== src/Pow/Canonical.antt =====
-- How far the compact form loses precision, where it fails, and where it is exact.
use native.Mathlib.Nat.{mul-le-mul, le_refl}
use devinsidercoin.Prelude.{
  ℕ, zero, suc, ◌+◌, ◌-◌, ◌*◌, ◌/◌, ◌%◌, ◌^◌, ◌≤◌, ◌<◌, ◌≡◌, ◌⊎◌, refl, sym, ap, ◌∙◌, inl, inr,
  List, [], ◌∷◌, length, All, arith, false, ltb, leb, ◌==◌, if◌then◌else◌, Bool-cases,
}
use devinsidercoin.Prelude.Powers.{pow256-suc, pow256_pos, pow256_mono}
use devinsidercoin.Bytes.{IsByte, of_big, big_bytes}
use devinsidercoin.Bytes.Width.{of_big-lt}
use devinsidercoin.Bytes.Big.{Leads, big_bytes-IsBytesOf, big_bytes-Leads}
use devinsidercoin.Pow.{bits_to_target, target_to_bits, leading_bytes, pack_bits}
use devinsidercoin.Pow.Compact.{
  bits_to_target-target_to_bits, leading_bytes_split, bits_to_target-pack,
}

-- A target of at least 2 ^ 16, which has at most 255 bytes and its top bit clear if it has them all,
-- comes back from its compact form no larger, and smaller by less than one part in 2 ^ 15.
pub bits_to_target-target_to_bits_near :
    (t k : ℕ)
    → 2 ^ 16 ≤ t
    → t < 2 ^ 23 * 256 ^ k
    → k ≤ 252
    → let r = bits_to_target (target_to_bits t) in (r ≤ t) × ((t - r) * 2 ^ 15 < r)
bits_to_target-target_to_bits_near t k t_ge above fits =
    let near = bits_to_target-target_to_bits t k t_ge above (omega arith) in
    (
      near.below,
      omega (
        arith,
        near.value,
        near.near,
        near.below,
        mul-le-mul near.mantissa_ge (le_refl (256 ^ near.shift)),
      ),
    )

small_bytes :
    (t : ℕ) (bs : List ℕ)
    → of_big bs ≡ t
    → All IsByte bs
    → Leads bs
    → t < 2 ^ 16
    → bits_to_target (pack_bits (length bs) (leading_bytes bs)) ≡ (if ltb t 256 then 0 else t / 256)
unfolding leading_bytes bits_to_target pack_bits
small_bytes t [] e bytes leads t_lt = absurd leads
small_bytes t (a ∷ []) e bytes leads t_lt = unfold of_big in ground arith
small_bytes t (a ∷ b ∷ []) e bytes leads t_lt = unfold of_big in ground arith
small_bytes t (a ∷ b ∷ c ∷ rest) e bytes leads t_lt = absurd (
    omega (
      arith,
      e,
      leading_bytes_split a b c rest,
      pow256_pos (length rest),
      mul-le-mul leads (pow256_pos (length rest)),
    ))

-- Below 2 ^ 16 the mantissa is not moved up: a target of one byte comes back as zero, and one of two
-- bytes loses its low byte.
pub bits_to_target-target_to_bits_small :
    (t : ℕ) → t < 2 ^ 16 → bits_to_target (target_to_bits t) ≡ (if ltb t 256 then 0 else t / 256)
unfolding target_to_bits
bits_to_target-target_to_bits_small zero h = unfold bits_to_target in refl
bits_to_target-target_to_bits_small (suc t) h =
    let whole = big_bytes-IsBytesOf (suc t) in
    let nonzero : (suc t == 0) ≡ false = ground arith in
    rw nonzero (
      small_bytes (suc t) (big_bytes (suc t)) whole.value whole.bytes
        (big_bytes-Leads (suc t) (omega arith)) h)

-- Two ways to write a number as three leading bytes and `l` more are the same.
same_shift :
    (m l n k r : ℕ)
    → 2 ^ 16 ≤ m
    → m < 2 ^ 24
    → 2 ^ 16 ≤ n
    → n < 2 ^ 24
    → r < 256 ^ l
    → m * 256 ^ l + r ≡ n * 256 ^ k
    → l ≡ k
same_shift m l n k r m_ge m_lt n_ge n_lt r_lt e = elim (Bool-cases (l == k)) [
  | inl same ↦ ground arith
  | inr differ ↦ absurd (elim (Bool-cases (ltb l k)) [
    | inl lt ↦ omega (
      arith,
      pow256_mono (suc l) k (ground arith),
      pow256-suc l,
      mul-le-mul n_ge (le_refl (256 ^ k)),
      mul-le-mul m_lt (le_refl (256 ^ l)),
    )
    | inr ge ↦ omega (
      arith,
      pow256_mono (suc k) l (ground arith),
      pow256-suc k,
      pow256_pos k,
      mul-le-mul m_ge (le_refl (256 ^ l)),
      mul-le-mul n_lt (le_refl (256 ^ k)),
    )
  ])
]

same_lead : (m n p r : ℕ) → r < p → m * p + r ≡ n * p → m ≡ n
same_lead m n p r h e = elim (Bool-cases (m == n)) [
  | inl same ↦ ground arith
  | inr differ ↦ absurd (elim (Bool-cases (ltb m n)) [
    | inl lt ↦ let lt' : suc m ≤ n = ground arith in omega (arith, mul-le-mul lt' (le_refl p))
    | inr ge ↦ let gt' : suc n ≤ m = ground arith in omega (arith, mul-le-mul gt' (le_refl p))
  ])
]

pack_of_bytes :
    (n k : ℕ) (bs : List ℕ)
    → 2 ^ 16 ≤ n
    → n < 2 ^ 24
    → of_big bs ≡ n * 256 ^ k
    → All IsByte bs
    → Leads bs
    → pack_bits (length bs) (leading_bytes bs) ≡ pack_bits (k + 3) n
unfolding leading_bytes
pack_of_bytes n k [] n_ge n_lt e bytes leads = absurd leads
pack_of_bytes n k (a ∷ []) n_ge n_lt e bytes leads =
    absurd (omega (arith, of_big-lt (a ∷ []) bytes, pow256_pos k, mul-le-mul n_ge (pow256_pos k)))
pack_of_bytes n k (a ∷ b ∷ []) n_ge n_lt e bytes leads =
    absurd
      (omega (arith, of_big-lt (a ∷ b ∷ []) bytes, pow256_pos k, mul-le-mul n_ge (pow256_pos k)))
pack_of_bytes n k (a ∷ b ∷ c ∷ rest) n_ge n_lt e bytes leads =
    let m = a * 2 ^ 16 + b * 2 ^ 8 + c in
    let parts = sym (leading_bytes_split a b c rest) ∙ e in
    let count =
      same_shift m (length rest) n k (of_big rest) (omega arith) (omega arith) n_ge n_lt
        (of_big-lt rest bytes.1.1.1) parts in
    let lead =
      same_lead m n (256 ^ k) (of_big rest) (rw (← count) (of_big-lt rest bytes.1.1.1))
        (rw count at parts) in
    let whole : length (a ∷ b ∷ c ∷ rest) ≡ k + 3 = omega (arith, count) in rw (whole, lead)

target_to_bits_of :
    (n k : ℕ) → 2 ^ 16 ≤ n → n < 2 ^ 24 → target_to_bits (n * 256 ^ k) ≡ pack_bits (k + 3) n
unfolding target_to_bits
target_to_bits_of n k n_ge n_lt =
    let t = n * 256 ^ k in
    let whole = big_bytes-IsBytesOf t in
    let t_pos : 1 ≤ t = omega (arith, mul-le-mul n_ge (pow256_pos k)) in
    let nonzero : (t == 0) ≡ false = ground arith in
    rw nonzero
      (pack_of_bytes n k (big_bytes t) n_ge n_lt whole.value whole.bytes (big_bytes-Leads t t_pos))

-- The compact forms that `TargetToBits` writes for targets from 2 ^ 16: the sign bit is clear, and
-- the mantissa has no more than one leading zero byte, which only a set bit after it allows.
abbrev pub IsCanonical : ℕ → Type 0
IsCanonical bits =
    (bits < 2 ^ 32)
    × (bits % 2 ^ 24 < 2 ^ 23)
    × (((4 ≤ bits / 2 ^ 24) × (2 ^ 15 ≤ bits % 2 ^ 24))
        ⊎ ((bits / 2 ^ 24 ≡ 3) × (2 ^ 16 ≤ bits % 2 ^ 24)))

canonical_pack :
    (k m : ℕ)
    → k + 3 < 256
    → m < 2 ^ 23
    → ((1 ≤ k) × (2 ^ 15 ≤ m)) ⊎ (2 ^ 16 ≤ m)
    → target_to_bits (m * 256 ^ k) ≡ (k + 3) * 2 ^ 24 % 2 ^ 32 + m
canonical_pack k m fits m_lt (inr wide) =
    rw (target_to_bits_of m k wide (omega arith)) (unfold pack_bits in ground arith)
canonical_pack zero m fits m_lt (inl (pos, half)) = absurd (omega arith)
canonical_pack (suc k) m fits m_lt (inl (pos, half)) = elim (Bool-cases (leb (2 ^ 16) m)) [
  | inl wide ↦
      rw (target_to_bits_of m (suc k) (ground arith) (omega arith))
        (unfold pack_bits in ground arith)
  | inr narrow ↦
      let shape : m * 256 ^ suc k ≡ m * 256 * 256 ^ k =
        omega (arith, ap (λ (p : ℕ). m * p) (pow256-suc k)) in
      rw (shape, target_to_bits_of (m * 256) k (omega arith) (ground arith))
        (unfold pack_bits in ground arith)
]

-- A canonical compact form is recovered exactly from the target that it stands for.
pub target_to_bits-bits_to_target :
    (bits : ℕ) → IsCanonical bits → target_to_bits (bits_to_target bits) ≡ bits
target_to_bits-bits_to_target bits (range, sign, kind) =
    let k = bits / 2 ^ 24 - 3 in
    let m = bits % 2 ^ 24 in
    let shape : bits ≡ (k + 3) * 2 ^ 24 % 2 ^ 32 + m = omega arith in
    let decoded : bits_to_target bits ≡ m * 256 ^ k =
      ap bits_to_target shape ∙ bits_to_target-pack k m (omega arith) sign in
    rw decoded (canonical_pack k m (omega arith) sign (omega arith) ∙ sym shape)
