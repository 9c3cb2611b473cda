-- ===== src/PumpSdk/Swap.antt =====
-- buy.go and sell.go: `BuildBuyInstruction` and `BuildSellInstruction`. `none` is the panic of a
-- division by zero in the amounts.
pub mod Spends
use greet.Base.{
  ℕ, ◌==◌, String, Bool, true, false, if◌then◌else◌, List, [], ◌∷◌, Option, none, some, and_then,
  Error, Result, ok, err, ◌>>=◌, described, after_text, Floats, Decimals,
}
use greet.Base.Int.{ℤ}
use greet.Solana.Types.{Instruction}
use greet.Quotes.{
  BondingCurve, calculate_buy_quote, calculate_sell_quote, calc_min_amount_out_by_price,
}
use greet.PumpSdk.Node.{PumpNode, pump_program, pump_fee_recipient, CurveKeys, get_curve_keys}
use greet.PumpSdk.Curve.{BondingCurveData, fetch_bonding_curve}
use greet.PumpSdk.Creator.{get_creator_and_vault, get_creator_and_vault_from_transactions}
use greet.PumpSdk.Layout.{buy_instruction, sell_instruction}
use greet.Base.Text.{codes}

-- `trade.PumpFee`
abbrev pub pump_fee : ℕ
pump_fee = 10000

-- The reserves that the quotes read.
abbrev pub reserves_of : BondingCurveData → BondingCurve
reserves_of c = record {
  virtual_sol_reserves = c.virtual_sol_reserves;
  virtual_token_reserves = c.virtual_token_reserves;
}

-- A buy pays something and buys something.
abbrev pub paid_amount : ℕ → Result ℕ
paid_amount amount =
    if amount == 0 then err (Error.other "buy failed: solAmount is 0") else ok amount

abbrev pub bought_tokens : ℕ → Result ℕ
bought_tokens tokens =
    if tokens == 0
    then err (
        Error.other
          "buy failed: calculated token amount is 0; increase SOL amount or adjust slippage/decimals")
    else ok tokens

module _ (node : PumpNode) where
  -- `getGlobalFeeRecipient`
  abbrev pub recipient_of_account : Result (Option (List ℕ)) → Result String
  recipient_of_account (err e) = err (after_text "fetch global account: " e)
  recipient_of_account (ok none) = err (Error.other "global account not found")
  recipient_of_account (ok (some bytes)) =
      described (after_text "decode global: ") (node.fee_recipient bytes)

  unfoldable pub get_global_fee_recipient : Result String
  get_global_fee_recipient = do
    key ←
        described (after_text "derive global PDA: ")
          (node.find_program_address (codes "global" ∷ []) pump_program)
    recipient_of_account (node.account key.0)

  -- The constant, where the account gives none.
  abbrev pub recipient_or_default : Result String → String
  recipient_or_default (ok key) = key
  recipient_or_default (err e) = pump_fee_recipient

-- A quote on the curve of a mint.
abbrev pub quoted {ℓ} :
    {A : Type ℓ} → (BondingCurveData → Option A) → Result BondingCurveData → Option (Result A)
quoted quote (err e) = some (err (after_text "can't fetch bonding curve: " e))
quoted quote (ok curve) = and_then (quote curve) (λ a. some (ok a))

-- What the two functions read of math/big: a big float times a percentage, as an integer, and one
-- less the slippage in ten-thousandths.
module _ (f : Floats) (d : Decimals f.F) (percent_of : ℤ → f.F → ℤ) (percentage_of : ℕ → f.F)
    (node : PumpNode) where
  open f use {F}

  -- The tokens to buy at least: by the price, or by the curve where the price is zero.
  abbrev pub tokens_to_buy : ℕ → ℕ → F → ℕ → ℕ → CurveKeys → Option (Result ℕ)
  tokens_to_buy amount slippage price in_decimal out_decimal keys =
      if f.eq_f price f.zero_f
      then quoted
          (λ curve.
            calculate_buy_quote percent_of amount (reserves_of curve) (percentage_of slippage))
          (fetch_bonding_curve node keys.bonding_curve)
      else and_then
          (calc_min_amount_out_by_price d slippage amount true price in_decimal out_decimal
            pump_fee)
          (λ out. some (ok out.0))

  -- The instruction after the amount is known.
  unfoldable pub buy_of_amount : String → String → ℕ → CurveKeys → ℕ → Result Instruction
  buy_of_amount user mint amount keys tokens = do
    ata ← node.find_ata user mint
    paid ← paid_amount amount
    creator ←
        described (after_text "failed to get creator and vault: ")
          (get_creator_and_vault_from_transactions node mint)
    bought ← bought_tokens tokens
    ok (
        buy_instruction node bought paid (recipient_or_default node (get_global_fee_recipient node))
          mint keys ata user creator.1)

  abbrev pub after_curve_keys :
      String → String → ℕ → ℕ → F → ℕ → ℕ → Result CurveKeys → Option (Result Instruction)
  after_curve_keys user mint amount slippage price in_decimal out_decimal (err e) =
      some (err (after_text "failed to get bonding curve data: " e))
  after_curve_keys user mint amount slippage price in_decimal out_decimal (ok keys) =
      and_then (tokens_to_buy amount slippage price in_decimal out_decimal keys)
        λ r. some (r >>= buy_of_amount user mint amount keys)

  -- `BuildBuyInstruction`
  unfoldable pub build_buy_instruction :
      String → String → ℕ → ℕ → F → ℕ → ℕ → Option (Result Instruction)
  unfolding buy_of_amount
  build_buy_instruction user mint amount slippage price in_decimal out_decimal =
      after_curve_keys user mint amount slippage price in_decimal out_decimal
        (get_curve_keys node mint)

  -- The lowest output of a sell and the expected one.
  abbrev pub sol_of_sell : ℕ → ℕ → F → ℕ → ℕ → CurveKeys → Option (Result (ℕ × ℕ))
  sol_of_sell amount slippage price in_decimal out_decimal keys =
      if f.eq_f price f.zero_f
      then quoted
          (λ curve.
            calculate_sell_quote percent_of amount (reserves_of curve) (percentage_of slippage))
          (fetch_bonding_curve node keys.bonding_curve)
      else and_then
          (calc_min_amount_out_by_price d slippage amount false price in_decimal out_decimal
            pump_fee)
          (λ out. some (ok out))

  unfoldable pub sell_of_amount :
      String → String → String → ℕ → CurveKeys → ℕ × ℕ → Result (Instruction × ℕ)
  sell_of_amount ata user mint amount keys sol = do
    creator ←
        described (after_text "failed to get creator and vault: ") (get_creator_and_vault node mint)
    ok (sell_instruction amount sol.0 pump_fee_recipient mint keys ata user creator.1, sol.1)

  abbrev pub sell_after_keys :
      String
      → String
      → String
      → ℕ
      → F
      → ℕ
      → ℕ
      → Result CurveKeys
      → ℕ
      → Option (Result (Instruction × ℕ))
  sell_after_keys ata user mint slippage price in_decimal out_decimal (err e) amount =
      some (err (after_text "can't get bonding curve data: " e))
  sell_after_keys ata user mint slippage price in_decimal out_decimal (ok keys) amount =
      and_then (sol_of_sell amount slippage price in_decimal out_decimal keys)
        λ r. some (r >>= sell_of_amount ata user mint amount keys)

  -- The amount to sell, which is the balance where all is sold.
  abbrev pub amount_to_sell : Bool → String → ℕ → Result ℕ
  amount_to_sell false ata amount = ok amount
  amount_to_sell true ata amount = do
    balance ←
        described (after_text "can't get amount of token in balance: ") (node.token_balance ata)
    described (after_text "can't convert token amount to integer: ") (node.atoi balance)

  abbrev pub sell_amount :
      String → String → String → ℕ → F → ℕ → ℕ → Result ℕ → Option (Result (Instruction × ℕ))
  sell_amount ata user mint slippage price in_decimal out_decimal (err e) = some (err e)
  sell_amount ata user mint slippage price in_decimal out_decimal (ok amount) =
      sell_after_keys ata user mint slippage price in_decimal out_decimal (get_curve_keys node mint)
        amount

  -- `BuildSellInstruction`
  unfoldable pub build_sell_instruction :
      String → String → String → ℕ → ℕ → Bool → F → ℕ → ℕ → Option (Result (Instruction × ℕ))
  unfolding sell_of_amount
  build_sell_instruction ata user mint amount slippage all price in_decimal out_decimal =
      sell_amount ata user mint slippage price in_decimal out_decimal
        (amount_to_sell all ata amount)
