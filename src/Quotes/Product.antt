-- ===== src/Quotes/Product.antt =====
-- The constant product of the quotes.
use Prim.Native.String.{◌++◌ as ◌<>◌}
use native.Mathlib.Nat.{
  div-mul-le_self, lt-div-mul-add, div-le_of_le-mul, mod-eq_of_lt, mul-le-mul_right,
}
use greet.Base.{
  ℕ, zero, suc, ◌+◌, ◌-◌, ◌*◌, ◌/◌, ◌%◌, ◌^◌, ◌≤◌, ◌<◌, ltb, ◌≡◌, refl, ap, ◌∙◌, true,
  if◌then◌else◌, some, and_then, Error, ok, err, arith,
}
use greet.Base.Text.{itoa}
use greet.Base.Int.{ℤ, pos, sub_ℕ, ◌+ℤ◌}
use greet.Quotes.{
  big_div, big_uint64, neg, given, less_fee, base_amount_of, calc_ps_base_amount_out, BondingCurve,
  calculate_sell_quote,
}

-- The trade of a pool of x and y that is paid into its x side and gives out of its y side: the new
-- product is not above the old one, and less than the new x side below it.
abbrev pub IsTrade : ℕ → ℕ → ℕ → ℕ → Type 0
IsTrade x y paid out =
    (out ≤ y) × ((y - out) * (x + paid) ≤ y * x) × (y * x < (y - out) * (x + paid) + (x + paid))

-- The new y side is not above the old one.
new_side_le : (x y paid : ℕ) → y * x / (x + paid) ≤ y
new_side_le x y paid =
    let e : (x + paid) * y ≡ y * x + paid * y = omega arith in
    div-le_of_le-mul (x + paid) (omega (arith, e))

sub_sub : (y u : ℕ) → u ≤ y → y - (y - u) ≡ u
sub_sub y u h = omega arith

pos_add_neg : (y u : ℕ) → u ≤ y → pos y +ℤ neg (pos u) ≡ pos (y - u)
pos_add_neg y u h = ground arith

sub_pos : (a b : ℕ) → b ≤ a → sub_ℕ a b ≡ pos (a - b)
sub_pos a b h = ground arith

big_div_pos : (k n : ℕ) → 0 < n → big_div k (pos n) ≡ some (pos (k / n))
big_div_pos k zero h = absurd (omega arith)
big_div_pos k (suc n) h = refl

pos_add : (x paid : ℕ) → pos x +ℤ pos paid ≡ pos (x + paid)
pos_add x paid = ground arith

-- A payment into a pool that has something on that side gives a trade.
given-IsTrade :
    (x y paid : ℕ)
    → 0 < x
    → (out : ℕ) × (given x y (pos paid) ≡ some (pos out)) × IsTrade x y paid out
given-IsTrade x y paid h =
    let u = y * x / (x + paid) in
    let le = new_side_le x y paid in
    let positive : 0 < x + paid = omega arith in
    let rest = sub_sub y u le in
    (
      y - u,
      rw (pos_add x paid)
          (rw (big_div_pos (y * x) (x + paid) positive) (ap some (pos_add_neg y u le))),
      (
        omega arith,
        rw rest (div-mul-le_self (y * x) (x + paid)),
        rw rest (lt-div-mul-add {a = y * x} positive),
      ),
    )

-- What is left of an amount after a fee of at most all of it.
less_fee-pos :
    (amount fee base : ℕ)
    → fee ≤ suc base
    → less_fee amount fee (suc base) ≡ some (pos (amount - amount * fee / suc base))
less_fee-pos amount fee base h =
    let taken = amount * fee / suc base in
    let e : amount * fee ≤ suc base * amount = omega (arith, mul-le-mul_right amount h) in
    let le : taken ≤ amount = div-le_of_le-mul (suc base) e in ap some (sub_pos amount taken le)

-- For a fee of at most all of the amount and pools that are not empty and fit in a uint64, the
-- amount of base tokens is that of a trade of the amount less the fee, rounded down: the new
-- product of the pools is not above the old one and less than one unit of the quote side below it.
-- No base token is an error.
pub calc_ps_base_amount_out-IsTrade :
    (quote_pool base_pool sol_in fee_rate base : ℕ)
    → fee_rate ≤ suc base
    → 0 < quote_pool
    → base_pool < 2 ^ 64
    → (out : ℕ) × IsTrade quote_pool base_pool (sol_in - sol_in * fee_rate / suc base) out
      × (calc_ps_base_amount_out quote_pool base_pool sol_in fee_rate (suc base)
          ≡ some (
              if ltb 0 out
              then ok out
              else err (Error.other ("calculated tokens received is not positive: " <> itoa out))))
unfolding calc_ps_base_amount_out
calc_ps_base_amount_out-IsTrade quote_pool base_pool sol_in fee_rate base h positive fits =
    let paid = sol_in - sol_in * fee_rate / suc base in
    let left = less_fee-pos sol_in fee_rate base h in
    let (out, gives, trade) = given-IsTrade quote_pool base_pool paid positive in
    let whole : out % 2 ^ 64 ≡ out = mod-eq_of_lt (omega (arith, trade.0, fits)) in
    (
      out,
      trade,
      ap
            (λ o.
              and_then o
                (λ p. and_then (given quote_pool base_pool p) (λ n. some (base_amount_of n))))
            left
          ∙ rw gives (
              ap
                (λ n. some (
                  if ltb 0 out
                  then ok n
                  else err
                      (Error.other ("calculated tokens received is not positive: " <> itoa out))))
                whole),
    )

-- For an amount below 2^63 and reserves that are not empty and fit in a uint64, the second number
-- of a sell quote is what a trade of the amount gives.
pub calculate_sell_quote-IsTrade :
    {F : Type 0} (percent_of : ℤ → F → ℤ) (amount : ℕ) (curve : BondingCurve) (percentage : F)
    → amount < 2 ^ 63
    → 0 < curve.virtual_token_reserves
    → curve.virtual_sol_reserves < 2 ^ 64
    → (out : ℕ) × IsTrade curve.virtual_token_reserves curve.virtual_sol_reserves amount out
      × (calculate_sell_quote percent_of amount curve percentage
          ≡ some (big_uint64 (percent_of (pos out) percentage), out))
unfolding calculate_sell_quote
calculate_sell_quote-IsTrade percent_of amount curve percentage small positive fits =
    let (out, gives, trade) =
      given-IsTrade curve.virtual_token_reserves curve.virtual_sol_reserves amount positive in
    let whole : out % 2 ^ 64 ≡ out = mod-eq_of_lt (omega (arith, trade.0, fits)) in
    let fits_int : ltb amount (2 ^ 63) ≡ true = ground arith in
    (
      out,
      trade,
      rw fits_int
          (rw gives (ap (λ n. some (big_uint64 (percent_of (pos out) percentage), n)) whole)),
    )
