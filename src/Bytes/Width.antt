-- ===== src/Bytes/Width.antt =====
-- Fixed width integers read back, and their order is the order of the numbers.
use native.Mathlib.Nat.{mul-le-mul, le_refl}
use devinsidercoin.Prelude.{
  ℕ, zero, suc, ◌+◌, ◌*◌, ◌/◌, ◌%◌, ◌^◌, ◌<◌, ◌≡◌, refl, ap, List, [], ◌∷◌, ◌++◌, foldl, length,
  length-append, All, arith,
}
use devinsidercoin.Prelude.Powers.{pow256-suc}
use devinsidercoin.Bytes.{put_little, put_big, of_little, of_big, push_byte, IsByte}

pub length-put_little : (n v : ℕ) → length (put_little n v) ≡ n
unfolding put_little
length-put_little zero v = refl
length-put_little (suc n) v = ap suc (length-put_little n (v / 256))

pub of_little-put_little : (n v : ℕ) → v < 256 ^ n → of_little (put_little n v) ≡ v
unfolding put_little of_little
of_little-put_little zero v h = omega arith
of_little-put_little (suc n) v h =
    omega (arith, of_little-put_little n (v / 256) (omega (arith, pow256-suc n)))

pub length-put_big : (n v : ℕ) → length (put_big n v) ≡ n
unfolding put_big
length-put_big zero v = refl
length-put_big (suc n) v =
    omega (arith, length-append (put_big n (v / 256)) ((v % 256) ∷ []), length-put_big n (v / 256))

foldl-append_one :
    (xs : List ℕ) (acc b : ℕ)
    → foldl push_byte acc (xs ++ (b ∷ [])) ≡ foldl push_byte acc xs * 256 + b
foldl-append_one [] acc b = refl
foldl-append_one (x ∷ xs) acc b = foldl-append_one xs (push_byte acc x) b

pub of_big-append_one : (xs : List ℕ) (b : ℕ) → of_big (xs ++ (b ∷ [])) ≡ of_big xs * 256 + b
unfolding of_big
of_big-append_one xs b = foldl-append_one xs 0 b

pub of_big-put_big : (n v : ℕ) → v < 256 ^ n → of_big (put_big n v) ≡ v
unfolding put_big
of_big-put_big zero v h = unfold of_big in omega arith
of_big-put_big (suc n) v h = omega (
  arith,
  of_big-append_one (put_big n (v / 256)) (v % 256),
  of_big-put_big n (v / 256) (omega (arith, pow256-suc n)),
)

foldl-push_byte :
    (xs : List ℕ) (acc : ℕ) → foldl push_byte acc xs ≡ acc * 256 ^ length xs + foldl push_byte 0 xs
foldl-push_byte [] acc = omega arith
foldl-push_byte (x ∷ xs) acc = omega (
  arith,
  foldl-push_byte xs (acc * 256 + x),
  foldl-push_byte xs (0 * 256 + x),
  pow256-suc (length xs),
  ap (λ (p : ℕ). acc * p) (pow256-suc (length xs)),
)

-- The first byte has the highest weight.
pub of_big-cons : (b : ℕ) (bs : List ℕ) → of_big (b ∷ bs) ≡ b * 256 ^ length bs + of_big bs
unfolding of_big
of_big-cons b bs =
    omega (arith, foldl-push_byte bs (0 * 256 + b), ap (λ (t : ℕ). t * 256 ^ length bs) (start b))
  where
    start : (b : ℕ) → 0 * 256 + b ≡ b
    start b = omega arith

pub of_big-lt : (bs : List ℕ) → All IsByte bs → of_big bs < 256 ^ length bs
of_big-lt [] h = unfold of_big in omega arith
of_big-lt (b ∷ bs) h = grind (
  arith,
  of_big-cons b bs,
  of_big-lt bs h.1,
  pow256-suc (length bs),
  mul-le-mul h.0 (le_refl (256 ^ length bs)),
)
