-- ===== src/Common/Float.antt =====
-- float64 is not modelled bit by bit: the code that computes with it takes the type and its
-- operations as a parameter. The operations carry no law here; a theorem that needs one names it.
use Prim.Native.Nat.{ℕ}
use mathlib.Core.Bool.{Bool}
use service_reliability_watc.Common.Int.{ℤ}

pub record Float64 (F : Type 0) : Type 0 where
  -- `decimal m k` is the constant m / 10 ^ k.
  pub decimal : ℕ → ℕ → F
  -- float64(n), and the truncation time.Duration(x).
  pub of_int : ℤ → F
  pub to_int : F → ℤ
  pub plus : F → F → F
  pub minus : F → F → F
  pub times : F → F → F
  pub over : F → F → F
  pub maximum : F → F → F
  -- The tests are Go's: with a NaN each of them is false.
  pub lt : F → F → Bool
  pub le : F → F → Bool
  pub eq : F → F → Bool
