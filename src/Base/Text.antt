-- ===== src/Base/Text.antt =====
-- What the source uses of Go's `strings` and `strconv`: `Contains`, `HasPrefix` and `Itoa`.
use Prim.Native.Nat.{ℕ, zero, suc, ◌/◌, ◌%◌}
use Prim.Native.Char.{code}
use Prim.Native.String.{String, ◌++◌ as ◌<>◌}
use mathlib.Core.Bool.{Bool, true, false, ◌&&◌, ◌||◌}
use mathlib.Core.List.{List, [], ◌∷◌}
use greet.Base.Tests.{ltb, ◌==◌, if◌then◌else◌}

-- The code points of a text.
abbrev pub codes : String → List ℕ
codes String.[] = []
codes (String.◌∷◌ c s) = code c ∷ codes s

abbrev pub has_prefix : List ℕ → List ℕ → Bool
has_prefix _ [] = true
has_prefix [] (_ ∷ _) = false
has_prefix (x ∷ xs) (y ∷ ys) = x == y && has_prefix xs ys

contains_codes : List ℕ → List ℕ → Bool
contains_codes [] ys = has_prefix [] ys
contains_codes (x ∷ xs) ys = has_prefix (x ∷ xs) ys || contains_codes xs ys

-- `strings.Contains(s, part)`
unfoldable pub contains : String → String → Bool
unfolding contains_codes
contains s part = contains_codes (codes s) (codes part)

digit : ℕ → String
digit d =
    if d == 0
    then "0"
    else if d == 1
    then "1"
    else if d == 2
    then "2"
    else if d == 3
    then "3"
    else if d == 4
    then "4"
    else if d == 5
    then "5"
    else if d == 6
    then "6"
    else if d == 7
    then "7"
    else if d == 8
    then "8"
    else "9"

-- The fuel is the number itself, which a division by ten undercuts.
itoa_from : ℕ → ℕ → String
itoa_from zero n = digit n
itoa_from (suc fuel) n =
    let rest = itoa_from fuel (n / 10) <> digit (n % 10) in if ltb n 10 then digit n else rest

-- `strconv.Itoa(n)` of a number that is not negative.
unfoldable pub itoa : ℕ → String
unfolding itoa_from digit
itoa n = itoa_from n n
