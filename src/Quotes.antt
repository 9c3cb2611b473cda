-- ===== src/Quotes.antt =====
-- Amounts of a swap: pkg/trade/swap.go and the quotes of pkg/pumpfun/pump/{buy,sell}.go. The big
-- integers of the constant product are exact; `none` is the panic of a division by zero.
pub mod Product
use Prim.Native.String.{◌++◌ as ◌<>◌}
use greet.Base.{
  ℕ, zero, suc, ◌+◌, ◌-◌, ◌*◌, ◌/◌, ◌%◌, ◌^◌, ltb, leb, String, Bool, true, false, ◌||◌,
  if◌then◌else◌, Option, none, some, and_then, Error, Result, ok, err, Floats, Decimals,
}
use greet.Base.Text.{itoa}
use greet.Base.Int.{ℤ, pos, negsuc, pos_part, neg_part, sub_ℕ, is_neg, is_zero, ◌+ℤ◌, mul_ℕ}
use greet.Solana.Types.{uint64, decimals2value}

-- `big.Int.Div` of a natural number, which rounds so that the remainder is not negative.
abbrev pub big_div : ℕ → ℤ → Option ℤ
big_div k (pos zero) = none
big_div k (pos (suc n)) = some (pos (k / suc n))
big_div k (negsuc n) = some (sub_ℕ 0 (k / suc n))

-- `big.Int.Uint64`, which takes the low bits of the absolute value.
abbrev pub big_uint64 : ℤ → ℕ
big_uint64 (pos n) = n % 2 ^ 64
big_uint64 (negsuc n) = suc n % 2 ^ 64

-- `big.Int.String`
abbrev pub int_text : ℤ → String
int_text (pos n) = itoa n
int_text (negsuc n) = "-" <> itoa (suc n)

abbrev pub neg : ℤ → ℤ
neg a = sub_ℕ (neg_part a) (pos_part a)

abbrev pub positive_ℤ : ℤ → Bool
positive_ℤ (pos n) = ltb 0 n
positive_ℤ (negsuc _) = false

-- What is left of an amount after the fee, which is rounded down.
abbrev pub less_fee : ℕ → ℕ → ℕ → Option ℤ
less_fee amount fee_rate zero = none
less_fee amount fee_rate (suc base) = some (sub_ℕ amount (amount * fee_rate / suc base))

-- `y - y * x / (x + paid)`: what a pool of x and y gives for an amount paid into its x side.
abbrev pub given : ℕ → ℕ → ℤ → Option ℤ
given x y paid = and_then (big_div (y * x) (pos x +ℤ paid)) (λ updated. some (pos y +ℤ neg updated))

abbrev pub base_amount_of : ℤ → Result ℕ
base_amount_of out =
    if positive_ℤ out
    then ok (big_uint64 out)
    else err (Error.other ("calculated tokens received is not positive: " <> int_text out))

-- `CalcPSBaseAmountOut`, for an amount of SOL that is not negative.
unfoldable pub calc_ps_base_amount_out : ℕ → ℕ → ℕ → ℕ → ℕ → Option (Result ℕ)
calc_ps_base_amount_out quote_pool base_pool sol_in fee_rate base_rate =
    and_then (less_fee sol_in fee_rate base_rate)
      λ paid. and_then (given quote_pool base_pool paid) (λ out. some (base_amount_of out))

-- The reserves of a bonding curve that the quotes read.
pub record BondingCurve : Type 0 where
  pub virtual_sol_reserves : ℕ
  pub virtual_token_reserves : ℕ

-- `big.NewInt(int64(n))`
abbrev pub big_int64 : ℕ → ℤ
big_int64 n = if ltb n (2 ^ 63) then pos n else sub_ℕ n (2 ^ 64)

-- A big float times a percentage, as an integer: an operation of math/big.
module _ {F : Type 0} (percent_of : ℤ → F → ℤ) where
  -- `CalculateBuyQuote`
  unfoldable pub calculate_buy_quote : ℕ → BondingCurve → F → Option ℕ
  calculate_buy_quote sol curve percentage =
      and_then (given curve.virtual_sol_reserves curve.virtual_token_reserves (big_int64 sol))
        λ tokens. some (big_uint64 (percent_of tokens percentage))

  -- `calculateSellQuote`: the amount with the slippage, and without.
  unfoldable pub calculate_sell_quote : ℕ → BondingCurve → F → Option (ℕ × ℕ)
  calculate_sell_quote amount curve percentage =
      and_then (given curve.virtual_token_reserves curve.virtual_sol_reserves (big_int64 amount))
        λ out. some (big_uint64 (percent_of out percentage), big_uint64 out)

  -- `CalcPSMinQuoteAmountOut`: the percentage is one less the slippage in hundredths.
  abbrev pub min_quote_of : ℤ → Result ℕ
  min_quote_of out =
      if positive_ℤ out
      then ok (big_uint64 out)
      else err (Error.other ("calculated min quote amount is not positive: " <> int_text out))

  unfoldable pub calc_ps_min_quote_amount_out : (ℕ → F) → ℕ → ℕ → ℕ → ℕ → ℕ → ℕ → Option (Result ℕ)
  calc_ps_min_quote_amount_out rest_of quote_pool base_pool base_in slippage fee_rate base_rate =
      and_then (less_fee base_in fee_rate base_rate) λ sold.
        and_then (given base_pool quote_pool sold)
          λ out. some (min_quote_of (percent_of out (rest_of slippage)))

module _ {F : Type 0} (d : Decimals F) where
  open d use {D}

  abbrev of_uint64 : ℕ → D
  of_uint64 n = d.of_int (pos n)

  -- The rest of an amount after a fee in millionths.
  abbrev pub after_fee : D → ℕ → D
  after_fee amount fee_rate =
      d.sub_d amount (d.mul_d amount (d.div_d (of_uint64 fee_rate) (of_uint64 1000000)))

  -- One less the slippage, in ten-thousandths.
  abbrev pub kept_share : ℕ → D
  kept_share slippage = d.div_d (d.sub_d (of_uint64 10000) (of_uint64 slippage)) (of_uint64 10000)

  abbrev pub is_negative : D → Bool
  is_negative a = if d.is_positive a then false else if d.is_zero a then false else true

  abbrev pub amounts : Bool → D → D → ℕ × ℕ
  amounts refused min_out out =
      if refused then (0, 0) else (uint64 (d.int_part min_out), uint64 (d.int_part out))

  -- `CalcMinAmountOutByPrice`, which panics where a divisor is zero.
  unfoldable pub calc_min_amount_out_by_price : ℕ → ℕ → Bool → F → ℕ → ℕ → ℕ → Option (ℕ × ℕ)
  calc_min_amount_out_by_price slippage amount_in is_buy price in_decimal out_decimal fee_rate =
      let amount =
        after_fee (d.div_d (of_uint64 amount_in) (of_uint64 (decimals2value in_decimal)))
          fee_rate in
      let rate = d.of_float price in
      let out =
        d.mul_d (if is_buy then d.div_d amount rate else d.mul_d amount rate)
          (of_uint64 (decimals2value out_decimal)) in
      let min_out = d.mul_d out (d.div_d (kept_share slippage) (of_uint64 1000)) in
      if d.is_zero (of_uint64 (decimals2value in_decimal))
        || (if is_buy then d.is_zero rate else false)
      then none
      else some (amounts (is_negative min_out || is_negative out) min_out out)

  -- `CalcMinAmountOutBySwap`
  unfoldable pub calc_min_amount_out_by_swap : ℕ → ℕ → ℕ → ℕ → ℕ → Option (ℕ × ℕ)
  calc_min_amount_out_by_swap slippage amount_in total_in total_out fee_rate =
      let amount = after_fee (of_uint64 amount_in) fee_rate in
      let pool = d.add_d (of_uint64 total_in) amount in
      let out =
        d.sub_d (of_uint64 total_out)
          (d.div_d (d.mul_d (of_uint64 total_in) (of_uint64 total_out)) pool) in
      let min_out = d.mul_d out (kept_share slippage) in
      if d.is_zero pool
      then none
      else if d.is_positive min_out
      then (if d.is_positive out
          then some (uint64 (d.int_part min_out), uint64 (d.int_part out))
          else some (0, 0))
      else some (0, 0)

  -- `CalcMinAmountOutByAmm`
  unfoldable pub calc_min_amount_out_by_amm : ℕ → ℕ → Bool → ℕ → ℕ → ℕ → Option (ℕ × ℕ)
  calc_min_amount_out_by_amm slippage amount_in is_buy token base fee_rate =
      if is_buy
      then calc_min_amount_out_by_swap slippage amount_in base token fee_rate
      else calc_min_amount_out_by_swap slippage amount_in token base fee_rate
