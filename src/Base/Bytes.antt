-- ===== src/Base/Bytes.antt =====
-- Numbers as bytes, the least significant first: Go's `binary.LittleEndian`.
use Prim.Native.Nat.{ℕ, zero, suc, ◌+◌, ◌*◌, ◌/◌, ◌%◌, ◌^◌, ◌<◌, ◌≤◌}
use mathlib.Core.Path.{◌≡◌, refl, sym, ap, ◌∙◌}
use native.Mathlib.Nat.{
  add-mul, mul_assoc, div-add-mod', mul-le-mul_right, mod-lt, add-mul-mod_self_right, mod-eq_of_lt,
  pow-succ',
}
use mathlib.Core.List.{List, [], ◌∷◌, ◌++◌}
use native.Mathlib.Omega.{arith}
use greet.Base.Lists.{length}

-- `binary.LittleEndian.Uint64` of the first eight bytes.
abbrev pub little_endian : ℕ → List ℕ → ℕ
little_endian zero _ = 0
little_endian (suc _) [] = 0
little_endian (suc n) (b ∷ bs) = b + 256 * little_endian n bs

abbrev pub uint64_of : List ℕ → ℕ
uint64_of bytes = little_endian 8 bytes

-- The first bytes of a number: `binary.LittleEndian.PutUint64` is the case of eight.
abbrev pub le_bytes : ℕ → ℕ → List ℕ
le_bytes zero _ = []
le_bytes (suc n) a = a % 256 ∷ le_bytes n (a / 256)

pub length-le_bytes : (n a : ℕ) → length (le_bytes n a) ≡ n
length-le_bytes zero a = refl
length-le_bytes (suc n) a = omega (arith, length-le_bytes n (a / 256))

pub little_endian-le_bytes :
    (n a : ℕ) (rest : List ℕ) → a < 256 ^ n → little_endian n (le_bytes n a ++ rest) ≡ a
little_endian-le_bytes zero a rest h = omega arith
little_endian-le_bytes (suc n) a rest h =
    let small : a / 256 < 256 ^ n = omega arith in
    omega (arith, little_endian-le_bytes n (a / 256) rest small)

pub uint64_of-le_bytes : (a : ℕ) (rest : List ℕ) → a < 2 ^ 64 → uint64_of (le_bytes 8 a ++ rest) ≡ a
uint64_of-le_bytes a rest h = little_endian-le_bytes 8 a rest (omega arith)

-- The low bytes of a number, the most significant first: Go's `binary.BigEndian`.
abbrev pub be_bytes : ℕ → ℕ → List ℕ
be_bytes zero _ = []
be_bytes (suc k) n = n / 256 ^ k % 256 ∷ be_bytes k n

-- The number that the first bytes say.
abbrev pub big_endian : ℕ → List ℕ → ℕ
big_endian zero _ = 0
big_endian (suc _) [] = 0
big_endian (suc k) (b ∷ bs) = b * 256 ^ k + big_endian k bs

digit-mod : (n m : ℕ) → 0 < m → n / m % 256 * m + n % m ≡ n % (256 * m)
digit-mod n m positive =
    let q = n / m in
    let digits : q / 256 * 256 + q % 256 ≡ q = omega arith in
    let parts = sym (ap (λ x. x * m) digits) ∙ add-mul (q / 256 * 256) (q % 256) m in
    let high = mul_assoc (q / 256) 256 m in
    let whole = div-add-mod' n m in
    let digit : q % 256 ≤ 255 = omega arith in
    let low = mul-le-mul_right m digit in
    let small = mod-lt n positive in
    let sum : n ≡ q % 256 * m + n % m + q / 256 * (256 * m) = omega (arith, parts, high, whole) in
    let below : q % 256 * m + n % m < 256 * m = omega (arith, low, small) in
    sym (
      ap (λ x. x % (256 * m)) sum
      ∙ add-mul-mod_self_right (q % 256 * m + n % m) (q / 256) (256 * m)
      ∙ mod-eq_of_lt below)

pow-positive : (k : ℕ) → 0 < 256 ^ k
pow-positive zero = omega arith
pow-positive (suc k) = let rest = pow-positive k in omega (arith, rest)

pub big_endian-be_bytes :
    (k n : ℕ) (rest : List ℕ) → big_endian k (be_bytes k n ++ rest) ≡ n % 256 ^ k
big_endian-be_bytes zero n rest = omega arith
big_endian-be_bytes (suc k) n rest =
    ap (λ x. n / 256 ^ k % 256 * 256 ^ k + x) (big_endian-be_bytes k n rest)
    ∙ digit-mod n (256 ^ k) (pow-positive k)
    ∙ ap (λ m. n % m) (sym (pow-succ' 256 k))
