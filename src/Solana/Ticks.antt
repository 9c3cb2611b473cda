-- ===== src/Solana/Ticks.antt =====
-- solana/txManager.go: `tickWithSpacing` and `getTickArrayStartIndexByTick`, over Go's int of 64
-- bits. The spacing, a uint16, is not zero, and an array has 60 ticks.
use mathlib.Core.Path.{subst}
use greet.Pump.{int64_of}
use greet.Solana.Types.{uint64}
use native.Mathlib.Nat.{div-mul-le_self, lt-div-mul-add, div-add-mod', mod-lt, mul-pos}
use greet.Base.{
  ◌^◌, ltb, if_true, if_false, sym, ℕ, zero, suc, ◌+◌, ◌-◌, ◌*◌, ◌/◌, ◌%◌, ◌≤◌, ◌<◌, ◌==◌, ◌≡◌,
  refl, ap, ◌∙◌, true, false, ◌&&◌, not, if◌then◌else◌, Bool-cases, inl, inr, arith,
}
use greet.Base.Int.{
  ℤ, pos, negsuc, pos_part, neg_part, sub_ℕ, is_neg, is_zero, ◌≤ℤ◌, ◌+ℤ◌, mul_ℕ, quot_ℕ, rem_ℕ,
}

-- An int: what 64 bits keep.
abbrev pub int64 : ℤ → ℤ
int64 x = int64_of (uint64 x)

-- The division of both functions: Go's, less one for a negative number that is no multiple.
abbrev pub compressed : ℤ → ℕ → ℤ
compressed tick n =
    if is_neg tick && not (is_zero (rem_ℕ tick n)) then quot_ℕ tick n +ℤ negsuc 0 else quot_ℕ tick n

-- The product wraps around, and with it the number that it multiplies.
unfoldable pub tick_with_spacing : ℤ → ℕ → ℤ
tick_with_spacing tick spacing = int64 (mul_ℕ (compressed tick spacing) spacing)

unfoldable pub get_tick_array_start_index_by_tick : ℤ → ℕ → ℕ → ℤ
get_tick_array_start_index_by_tick tick spacing size =
    let ticks = spacing * size in int64 (mul_ℕ (compressed tick ticks) ticks)

sub_parts : (x : ℕ) → (pos_part (sub_ℕ 0 x) ≡ 0) × (neg_part (sub_ℕ 0 x) ≡ x)
sub_parts x = ground arith

sub_less_one : (q : ℕ) → sub_ℕ 0 q +ℤ negsuc 0 ≡ sub_ℕ 0 (suc q)
sub_less_one q = ground arith

sub_suc : (q : ℕ) → sub_ℕ 0 (suc q) ≡ negsuc q
sub_suc q = ground arith

mul_sub : (q n : ℕ) → mul_ℕ (sub_ℕ 0 q) n ≡ sub_ℕ 0 (q * n)
mul_sub zero n = let e : 0 * n ≡ 0 = omega arith in rw e refl
mul_sub (suc q) n = ap (λ z. mul_ℕ z n) (sub_suc q)

-- r is the largest multiple of n that is not above the tick.
abbrev pub IsFloor : ℤ → ℕ → ℤ → Type 0
IsFloor tick n r =
    (r ≤ℤ tick)
    × (pos_part tick + neg_part r + 1 ≤ pos_part r + n + neg_part tick)
    × (k : ℤ) × (r ≡ mul_ℕ k n)

negative-IsFloor :
    (a q n : ℕ)
    → q * n ≤ suc a + n - 1
    → suc a ≤ q * n
    → 0 < n
    → IsFloor (negsuc a) n (mul_ℕ (sub_ℕ 0 q) n)
negative-IsFloor a q n above below positive =
    let (p, m) = sub_parts (q * n) in
    let e = mul_sub q n in
    let pe : pos_part (mul_ℕ (sub_ℕ 0 q) n) ≡ 0 = ap pos_part e ∙ p in
    let me : neg_part (mul_ℕ (sub_ℕ 0 q) n) ≡ q * n = ap neg_part e ∙ m in
    (omega (arith, pe, me, below), omega (arith, pe, me, above, positive), sub_ℕ 0 q, refl)

compressed-IsFloor : (tick : ℤ) (n : ℕ) → 0 < n → IsFloor tick n (mul_ℕ (compressed tick n) n)
compressed-IsFloor (pos a) n h =
    (omega (arith, div-mul-le_self a n), omega (arith, lt-div-mul-add {a = a} h), pos (a / n), refl)
compressed-IsFloor (negsuc a) n h =
    let q = suc a / n in
    let sum = div-add-mod' (suc a) n in
    let small = mod-lt (suc a) h in
    elim (Bool-cases (suc a % n == 0)) [
      | inl exact ↦
          let r0 : suc a % n ≡ 0 = ground arith in
          let z : is_zero (sub_ℕ 0 (suc a % n)) ≡ true = rw r0 refl in
          rw z (negative-IsFloor a q n (omega arith) (omega arith) h)
      | inr rest ↦
          let r1 : 0 < suc a % n = ground arith in
          let z : is_zero (sub_ℕ 0 (suc a % n)) ≡ false = ground arith in
          rw z (rw (sub_less_one q) (negative-IsFloor a (suc q) n (omega arith) (omega arith) h))
    ]

int64-same : (x : ℤ) → pos_part x < 2 ^ 63 → neg_part x ≤ 2 ^ 63 → int64 x ≡ x
int64-same (pos n) h _ =
    let same : n % 2 ^ 64 ≡ n = omega arith in
    let small : ltb n (2 ^ 63) ≡ true = ground arith in rw same (if_true _ _ small)
int64-same (negsuc n) _ h =
    let back : (2 ^ 64 - (n + 1) % 2 ^ 64) % 2 ^ 64 ≡ 2 ^ 64 - 1 - n = omega arith in
    let big : ltb (2 ^ 64 - 1 - n) (2 ^ 63) ≡ false = ground arith in
    let again : sub_ℕ (2 ^ 64 - 1 - n) (2 ^ 64) ≡ negsuc n = ground arith in
    rw back (if_false _ _ big ∙ again)

-- The largest multiple is not far from its number.
pub IsFloor-near :
    (tick : ℤ) (n : ℕ) (r : ℤ)
    → IsFloor tick n r
    → (pos_part r ≤ pos_part tick) × (neg_part r ≤ neg_part tick + n)
IsFloor-near (pos a) n (pos b) (le, near, k, e) = (omega arith, omega arith)
IsFloor-near (pos a) n (negsuc b) (le, near, k, e) = (omega arith, omega arith)
IsFloor-near (negsuc a) n (pos b) (le, near, k, e) = (omega arith, omega arith)
IsFloor-near (negsuc a) n (negsuc b) (le, near, k, e) = (omega arith, omega arith)

int64-IsFloor :
    (tick : ℤ) (n : ℕ)
    → 0 < n
    → pos_part tick < 2 ^ 63
    → neg_part tick + n ≤ 2 ^ 63
    → IsFloor tick n (int64 (mul_ℕ (compressed tick n) n))
int64-IsFloor tick n h above below =
    let floor = compressed-IsFloor tick n h in
    let (high, low) = IsFloor-near tick n _ floor in
    subst (IsFloor tick n)
      (sym (
        int64-same (mul_ℕ (compressed tick n) n) (omega (arith, high, above))
          (omega (arith, low, below))))
      floor

-- For a spacing and a size that are not zero, and a tick that is further from the least int than
-- they are wide, the aligned tick is the largest multiple of the spacing that is not above the
-- tick, negative ticks included, and the start of its array is the largest multiple of the array's
-- width that is not above it.
pub ticks-IsFloor :
    (tick : ℤ) (spacing size : ℕ)
    → 0 < spacing
    → 0 < size
    → pos_part tick < 2 ^ 63
    → neg_part tick + spacing ≤ 2 ^ 63
    → neg_part tick + spacing * size ≤ 2 ^ 63
    → IsFloor tick spacing (tick_with_spacing tick spacing)
      × IsFloor tick (spacing * size) (get_tick_array_start_index_by_tick tick spacing size)
unfolding tick_with_spacing get_tick_array_start_index_by_tick
ticks-IsFloor tick spacing size h k above near wide = (
  int64-IsFloor tick spacing h above near,
  int64-IsFloor tick (spacing * size) (mul-pos h k) above wide,
)
