-- ===== src/Solana/PumpFun.antt =====
-- solana/pump.go: `CreateMarketOrder4Pumpfun`, the instructions of a swap on PumpFun.
pub mod Funds
pub mod Buys
use greet.Base.{
  ℕ, ◌+◌, ltb, String, Bool, true, false, ◌&&◌, ◌||◌, not, if◌then◌else◌, str_eq, List, [], ◌∷◌,
  ◌++◌, Error, Result, ok, err, ◌>>=◌, Decimals,
}
use greet.Base.Int.{pos}
use greet.Solana.Types.{
  SwapTx, Instruction, Manager, uint64, ◌+64◌, decimals2value, sol_balance_not_enough,
  sol_gas_not_enough, gas_mode,
}
use greet.Solana.Gas.{create_gas}
use greet.Solana.Dex.{scaled_amount, service_fee, affordable}

module _ {F : Type 0} (d : Decimals F) (fee_percent : d.D) (tm : Manager) where
  -- One of the two tokens is SOL.
  abbrev pub has_sol : SwapTx → Bool
  has_sol tx = str_eq tx.in_mint tm.wrapped_sol || str_eq tx.out_mint tm.wrapped_sol

  -- Anything but a swap into SOL is a buy.
  abbrev pub is_sell : SwapTx → Bool
  is_sell tx = str_eq tx.out_mint tm.wrapped_sol

  abbrev pub token_mint : SwapTx → String
  token_mint tx = if is_sell tx then tx.in_mint else tx.out_mint

  abbrev pub right_mints : SwapTx → Result Bool
  right_mints tx = if has_sol tx then ok true else err (Error.other "ErrWrongMint")

  -- The cost with the service fee of a buy, whose amount alone the balance must cover.
  abbrev pub cost_of : SwapTx → d.D → ℕ → ℕ → Result ℕ
  cost_of tx amount balance cost =
      if is_sell tx
      then ok cost
      else if ltb balance (uint64 (d.int_part amount))
      then err sol_balance_not_enough
      else ok (cost +64 service_fee d fee_percent tm amount)

  abbrev pub swap_instruction : SwapTx → ℕ → Result Instruction
  swap_instruction tx amount =
      if is_sell tx
      then (do
        token_ata ← tm.ata_of tx.user_wallet_account (token_mint tx) tm.token_program_id
        r ←
            tm.build_sell token_ata tx.user_wallet_account (token_mint tx) amount tx.slippage
              tx.price tx.in_decimal tx.out_decimal
        ok r.0)
      else tm.build_buy tx.user_wallet_account (token_mint tx) amount tx.slippage tx.price
          tx.in_decimal tx.out_decimal

  unfoldable pub create_market_order_pumpfun : SwapTx → Result (List Instruction)
  create_market_order_pumpfun tx = do
    mints ← right_mints tx
    amount ← scaled_amount d fee_percent tm tx
    price ← d.of_string tx.price
    gas ← create_gas tm 100000 (gas_mode 1)
    create ←
        tm.build (Instruction.create_ata tx.user_wallet_account (token_mint tx) tm.token_program_id)
    balance ← tm.balance tx.user_wallet_account
    cost ← cost_of tx amount balance (tm.rent_fee +64 gas.1)
    covered ← affordable d fee_percent tm balance cost
    swap ← swap_instruction tx (uint64 (d.int_part amount))
    ok (gas.0 ++ (create ∷ swap ∷ []))
