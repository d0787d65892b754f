-- ===== src/Base/Floats.antt =====
-- float64 as a parameter: the operations that the source uses, with IEEE 754's comparisons as
-- Boolean tests (each is false on a NaN).
pub mod Laws
pub mod Whole
use Prim.Native.Nat.{ℕ}
use mathlib.Core.Bool.{Bool}

pub record Floats (F : Type 0) : Type 0 where
  pub zero_f : F
  pub plus : F → F → F
  pub times : F → F → F
  pub over : F → F → F
  pub below : F → F → Bool
  pub at_most : F → F → Bool
  pub same : F → F → Bool
  pub is_nan : F → Bool
  pub is_inf : F → Bool
  pub of_nat : ℕ → F
  -- int64(math.Ceil(x)), for x of at least 0 and below 2 ^ 63.
  pub ceil_nat : F → ℕ
