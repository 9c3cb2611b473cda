-- ===== src/Base/Int.antt =====
-- Go's `int` and `int64` where a value can be negative: signed integers over the native numbers,
-- with Go's division and remainder, which truncate towards zero.
use Prim.Native.Nat.{ℕ, suc, ◌+◌, ◌-◌, ◌*◌, ◌/◌, ◌%◌, ◌≤◌}
use mathlib.Core.Bool.{Bool, true, false}
use greet.Base.Tests.{leb, ◌==◌, if◌then◌else◌}

-- `negsuc n` is -(n + 1).
pub data ℤ : Type 0 where
  pos : ℕ → ℤ
  negsuc : ℕ → ℤ

abbrev pub pos_part : ℤ → ℕ
pos_part (pos n) = n
pos_part (negsuc _) = 0

abbrev pub neg_part : ℤ → ℕ
neg_part (pos _) = 0
neg_part (negsuc n) = suc n

-- a - b, as an integer.
abbrev pub sub_ℕ : ℕ → ℕ → ℤ
sub_ℕ a b = if leb b a then pos (a - b) else negsuc (b - a - 1)

abbrev pub is_neg : ℤ → Bool
is_neg (pos _) = false
is_neg (negsuc _) = true

abbrev pub is_zero : ℤ → Bool
is_zero (pos n) = n == 0
is_zero (negsuc _) = false

infix 50 ◌≤ℤ◌
abbrev pub ◌≤ℤ◌ : ℤ → ℤ → Type 0
a ≤ℤ b = pos_part a + neg_part b ≤ pos_part b + neg_part a

infixl 65 ◌+ℤ◌
abbrev pub ◌+ℤ◌ : ℤ → ℤ → ℤ
a +ℤ b = sub_ℕ (pos_part a + pos_part b) (neg_part a + neg_part b)

-- a * n for a natural number n.
abbrev pub mul_ℕ : ℤ → ℕ → ℤ
mul_ℕ (pos a) n = pos (a * n)
mul_ℕ (negsuc a) n = sub_ℕ 0 (suc a * n)

-- a / n and a % n for a natural number n > 0, as in Go.
abbrev pub quot_ℕ : ℤ → ℕ → ℤ
quot_ℕ (pos a) n = pos (a / n)
quot_ℕ (negsuc a) n = sub_ℕ 0 (suc a / n)

abbrev pub rem_ℕ : ℤ → ℕ → ℤ
rem_ℕ (pos a) n = pos (a % n)
rem_ℕ (negsuc a) n = sub_ℕ 0 (suc a % n)
