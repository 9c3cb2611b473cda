-- ===== src/Base/Results.antt =====
-- The results of fallible code. A Go `error` is one of the codes of pkg/xcode or any other error,
-- known by its text.
use Prim.Native.Nat.{ℕ}
use Prim.Native.String.{String, ◌++◌ as ◌<>◌}
use mathlib.Core.Path.{◌≡◌, refl, ap}
use mathlib.Core.Logic.{◌⊎◌, inl, inr}
use mathlib.Core.Bool.{Bool, true, false}
use mathlib.Core.Option.{Option, some}
use greet.Base.Text.{itoa}

pub data Error : Type 0 where
  code : ℕ → Error
  other : String → Error

-- `err.Error()`; a code of pkg/xcode has no message of its own, so its text is the number.
unfoldable pub error_text : Error → String
error_text (Error.code n) = itoa n
error_text (Error.other s) = s

pub data Result {ℓ} (A : Type ℓ) : Type ℓ where
  ok : A → Result A
  err : Error → Result A

infixl 5 ◌>>=◌
abbrev pub ◌>>=◌ {ℓ κ} : {A : Type ℓ} {B : Type κ} → Result A → (A → Result B) → Result B
ok a >>= f = f a
err e >>= f = err e

pub Result-cases {ℓ} :
    {A : Type ℓ} (r : Result A) → ((a : A) × (r ≡ ok a)) ⊎ ((e : Error) × (r ≡ err e))
Result-cases (ok a) = inl (a, refl)
Result-cases (err e) = inr (e, refl)

pub >>=-eq-ok {ℓ κ} :
    {A : Type ℓ} {B : Type κ} (r : Result A) (f : A → Result B) {b : B}
    → (r >>= f) ≡ ok b
    → (a : A) × (r ≡ ok a) × (f a ≡ ok b)
>>=-eq-ok (ok a) f h = (a, refl, h)
>>=-eq-ok (err e) f h = cc

-- `if !test { return err }`
abbrev pub require {ℓ} : {A : Type ℓ} → Bool → Error → A → Result A
require true e a = ok a
require false e a = err e

pub require-eq-ok {ℓ} :
    {A : Type ℓ} (test : Bool) (e : Error) (a : A) {b : A}
    → require test e a ≡ ok b
    → (test ≡ true) × (a ≡ b)
require-eq-ok true e a h = (refl, cc)
require-eq-ok false e a h = cc

abbrev pub value_or {ℓ} : {A : Type ℓ} → A → Result A → A
value_or _ (ok a) = a
value_or x (err _) = x

pub ok-injective {ℓ} : {A : Type ℓ} (a b : A) → ok a ≡ ok b → a ≡ b
ok-injective a b e = ap (value_or a) e

-- `fmt.Errorf` around the error of a call.
abbrev pub described {ℓ} : {A : Type ℓ} → (Error → Error) → Result A → Result A
described say (ok a) = ok a
described say (err e) = err (say e)

pub described-eq_ok {ℓ} :
    {A : Type ℓ} (say : Error → Error) (r : Result A) {a : A} → described say r ≡ ok a → r ≡ ok a
described-eq_ok say (ok a) h = h
described-eq_ok say (err e) h = cc

abbrev pub after_text : String → Error → Error
after_text what e = Error.other (what <> error_text e)

-- A result, and the rest of the work, which may panic.
abbrev pub go_on {ℓ κ} :
    {A : Type ℓ} {B : Type κ} → Result A → (A → Option (Result B)) → Option (Result B)
go_on (err e) f = some (err e)
go_on (ok a) f = f a

pub go_on-eq_some {ℓ κ} :
    {A : Type ℓ} {B : Type κ} (r : Result A) (f : A → Option (Result B)) {b : B}
    → go_on r f ≡ some (ok b)
    → (a : A) × (r ≡ ok a) × (f a ≡ some (ok b))
go_on-eq_some (ok a) f h = (a, refl, h)
go_on-eq_some (err e) f h = absurd (cc h)
