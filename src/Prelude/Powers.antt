-- ===== src/Prelude/Powers.antt =====
-- Powers of 2 and of 256: shifts by whole bytes.
use Prim.Native.Nat.{ℕ, zero, suc, ◌+◌, ◌*◌, ◌^◌, ◌≤◌}
use mathlib.Core.Path.{◌≡◌, refl, ap}
use native.Mathlib.Omega.{arith}
use native.Mathlib.Nat.{pow-suc, pow-le-pow_right}
use native.Mathlib.Numerals.{towards_suc}

pub pow256-suc : (k : ℕ) → 256 ^ suc k ≡ 256 * 256 ^ k
pow256-suc k = omega (arith, pow-suc 256 k)

pub pow2-add_eight : (s : ℕ) → 2 ^ (s + 8) ≡ 256 * 2 ^ s
pow2-add_eight s = simp towards_suc (omega arith)

-- A shift by `k` bytes.
pub pow2-bytes : (k : ℕ) → 2 ^ (8 * k) ≡ 256 ^ k
pow2-bytes zero = refl
pow2-bytes (suc k) =
    omega
      (arith, ap (λ (n : ℕ). 2 ^ n) (shape k), pow2-add_eight (8 * k), pow2-bytes k, pow256-suc k)
  where
    shape : (k : ℕ) → 8 * suc k ≡ 8 * k + 8
    shape k = omega arith

pub pow256_pos : (k : ℕ) → 1 ≤ 256 ^ k
pow256_pos zero = omega arith
pow256_pos (suc k) = omega (arith, pow256-suc k, pow256_pos k)

pub pow256_mono : (j k : ℕ) → j ≤ k → 256 ^ j ≤ 256 ^ k
pow256_mono j k h = pow-le-pow_right (omega arith) h
