-- ===== src/Prelude/Float.antt =====
-- The operations of Go's float64 that the code uses, as a parameter: antt has no floating point.
-- `lit n k` is the literal whose decimal value is n / 10^k. No law is assumed here; a theorem that
-- needs one has it as a hypothesis.
use Prim.Native.Nat.{ℕ}
use mathlib.Core.Bool.{Bool}

pub record Float (F : Type 0) : Type 0 where
  pub lit : ℕ → ℕ → F
  pub lt : F → F → Bool
  pub le : F → F → Bool
  pub add : F → F → F
  pub mul : F → F → F
  pub div : F → F → F
  pub neg : F → F
  pub floor : F → F
