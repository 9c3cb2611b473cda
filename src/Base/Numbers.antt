-- ===== src/Base/Numbers.antt =====
-- float64 and the decimals of github.com/shopspring/decimal, which are not part of the repository,
-- as types with the operations that the services call. Ordered has the laws of their order.
use Prim.Native.Nat.{ℕ}
use Prim.Native.String.{String}
use mathlib.Core.Path.{◌≡◌}
use mathlib.Core.Bool.{Bool, true, false}
use greet.Base.Int.{ℤ}
use greet.Base.Results.{Result}

pub record Floats : Type 1 where
  pub F : Type 0
  pub zero_f : F
  pub two_f : F
  -- `math.MaxFloat64` and its negation
  pub max_f : F
  pub neg_max_f : F
  pub of_nat : ℕ → F
  pub add_f : F → F → F
  pub mul_f : F → F → F
  pub div_f : F → F → F
  -- `a < b` and `a == b`
  pub lt_f : F → F → Bool
  pub eq_f : F → F → Bool

-- The order of the floats that are numbers, as those of a database are.
pub record Ordered (f : Floats) : Type 0 where
  pub not_below_self : (a : f.F) → f.lt_f a a ≡ false
  pub below_trans : (a b c : f.F) → f.lt_f a b ≡ true → f.lt_f b c ≡ true → f.lt_f a c ≡ true
  pub not_below_trans : (a b c : f.F) → f.lt_f a b ≡ false → f.lt_f b c ≡ false → f.lt_f a c ≡ false

pub record Decimals (F : Type 0) : Type 1 where
  pub D : Type 0
  -- `NewFromString`, `NewFromFloat`, `NewFromInt`, `New`
  pub of_string : String → Result D
  pub of_float : F → D
  -- `NewFromFloat` of an infinity or of no number is a panic
  pub is_number : F → Bool
  pub of_int : ℤ → D
  pub scaled : ℤ → ℤ → D
  pub add_d : D → D → D
  pub mul_d : D → D → D
  pub sub_d : D → D → D
  pub div_d : D → D → D
  pub is_positive : D → Bool
  pub is_zero : D → Bool
  -- `InexactFloat64`, `IntPart`, `String`
  pub to_float : D → F
  pub int_part : D → ℤ
  pub to_text : D → String
