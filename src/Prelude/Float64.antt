-- ===== src/Prelude/Float64.antt =====
-- float64. The arithmetic is a parameter: a type with the operations that the program uses.
-- `literal m d` is the constant m / 10 ^ d.
use Prim.Native.Nat.{ℕ}
use mathlib.Core.Bool.{Bool}

pub record Float64 (F : Type 0) : Type 0 where
  pub literal : ℕ → ℕ → F
  pub add : F → F → F
  pub sub : F → F → F
  pub mul : F → F → F
  pub div : F → F → F
  pub lt : F → F → Bool
  pub le : F → F → Bool
  pub eq : F → F → Bool
