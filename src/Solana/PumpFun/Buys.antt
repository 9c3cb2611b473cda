-- ===== src/Solana/PumpFun/Buys.antt =====
-- The buys of `CreateMarketOrder4Pumpfun` with the client of pkg/pumpfun.
use mathlib.Core.Path.{subst}
use greet.Base.{
  ap, ℕ, ◌<◌, ◌≤◌, ◌≡◌, sym, ◌∙◌, inl, inr, String, false, if_false, List, [], ◌∷◌, ◌++◌, some, ok,
  Floats, Decimals,
}
use greet.Base.Int.{ℤ}
use greet.Solana.Types.{SwapTx, Instruction, Manager, uint64}
use greet.Solana.Dex.{scaled_amount}
use greet.Solana.PumpFun.{is_sell, token_mint, create_market_order_pumpfun}
use greet.Solana.PumpFun.Funds.{create_market_order_pumpfun-BuiltPump}
use greet.PumpSdk.Node.{PumpNode}
use greet.PumpSdk.Swap.{build_buy_instruction}
use greet.PumpSdk.Swap.Spends.{BuyFor, uint64_lt, build_buy_instruction-BuyFor}

module _ (f : Floats) (d : Decimals f.F) (fee_percent : d.D) (tm : Manager) (node : PumpNode)
    (percent_of : ℤ → f.F → ℤ) (percentage_of : ℕ → f.F) (price_of : String → f.F) where
  open f use {F}
  open d use {D}

  -- The manager's buys are those of the client.
  abbrev pub UsesClient : Type 0
  UsesClient =
      (user mint : String) (amount slippage : ℕ) (price : String) (in_decimal out_decimal : ℕ)
      (i : Instruction)
      → tm.build_buy user mint amount slippage price in_decimal out_decimal ≡ ok i
      → build_buy_instruction f d percent_of percentage_of node user mint amount slippage
          (price_of price) in_decimal out_decimal
        ≡ some (ok i)

  -- Where the manager's buys are those of the client, the instructions of a buy on PumpFun end with
  -- the creation of the wallet's account of the token and a buy of the token from the curve for
  -- exactly the amount of the request, which is not zero and which the balance covers.
  pub create_market_order_pumpfun-BuyFor :
      UsesClient
      → (tx : SwapTx) (is : List Instruction) → is_sell d fee_percent tm tx ≡ false
      → create_market_order_pumpfun d fee_percent tm tx ≡ ok is
      → (amount : D) × (balance tokens : ℕ) × (gas : List Instruction) × (create swap : Instruction)
        × (scaled_amount d fee_percent tm tx ≡ ok amount)
        × (is ≡ gas ++ (create ∷ swap ∷ []))
        × (tm.build (Instruction.create_ata tx.user_wallet_account tx.out_mint tm.token_program_id)
            ≡ ok create)
        × BuyFor node tx.user_wallet_account tx.out_mint tokens (uint64 (d.int_part amount)) swap
        × (0 < tokens)
        × (0 < uint64 (d.int_part amount))
        × (tm.balance tx.user_wallet_account ≡ ok balance)
        × (uint64 (d.int_part amount) ≤ balance)
  create_market_order_pumpfun-BuyFor uses tx is buy h =
      let (amount, gas, balance, create, swap, _, scaled, _, has, account, covers, made, built) =
        create_market_order_pumpfun-BuiltPump d fee_percent tm tx h in
      let (tokens, buys, wants, pays) =
        build_buy_instruction-BuyFor f d percent_of percentage_of node tx.user_wallet_account
          (token_mint d fee_percent tm tx) (uint64 (d.int_part amount)) tx.slippage
          (price_of tx.price) tx.in_decimal tx.out_decimal (uint64_lt (d.int_part amount))
          (uses _ _ _ _ _ _ _ swap (sym (if_false _ _ buy) ∙ made)) in
      let covered : uint64 (d.int_part amount) ≤ balance = elim covers [
        | inl (sell, _) ↦ absurd (cc (sym sell ∙ buy))
        | inr (_, enough, _) ↦ enough
      ] in
      let mint = if_false tx.in_mint tx.out_mint buy in
      (
        amount,
        balance,
        tokens,
        gas.0,
        create,
        swap,
        scaled,
        built,
        sym (
              ap
                (λ m.
                  tm.build (Instruction.create_ata tx.user_wallet_account m tm.token_program_id))
                mint)
            ∙ account,
        subst (λ m. BuyFor node tx.user_wallet_account m tokens (uint64 (d.int_part amount)) swap)
            mint buys,
        wants,
        pays,
        has,
        covered,
      )
