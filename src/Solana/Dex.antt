-- ===== src/Solana/Dex.antt =====
-- solana/txManager.go: `CreateMarketOrderDex`, the instructions of a swap in the pools of Raydium
-- and of PumpSwap.
pub mod NoSwap
use Prim.Native.String.{◌++◌ as ◌<>◌}
use greet.Base.{
  ℕ, ◌+◌, ◌*◌, ◌%◌, ◌^◌, ltb, String, Bool, true, false, ◌||◌, if◌then◌else◌, str_eq, List, [], ◌∷◌,
  ◌++◌, Error, Result, ok, err, ◌>>=◌, require, Decimals,
}
use greet.Base.Int.{pos}
use greet.Order.Types.{raydium_v4, raydium_clmm, raydium_cpmm}
use greet.Solana.Types.{
  SwapTx, Instruction, Manager, uint64, ◌+64◌, decimals2value, sol_balance_not_enough,
  sol_gas_not_enough, gas_mode,
}
use greet.Solana.Gas.{create_gas}

abbrev pub pump_swap : String
pump_swap = "PumpSwap"

abbrev pub unsupported : String → Error
unsupported pool = Error.other ("trade pool :" <> pool <> " not support")

abbrev pub units_of_pool : String → Result ℕ
units_of_pool pool =
    if str_eq pool raydium_cpmm
    then ok 150000
    else if str_eq pool raydium_clmm
    then ok 250000
    else if str_eq pool raydium_v4
    then ok 150000
    else if str_eq pool pump_swap
    then ok 150000
    else err (unsupported pool)

-- The last `switch`: the calls that make the swap are commented out, so `instructionNew` is still
-- the last instruction that was built.
abbrev pub dex_instruction : String → Instruction → Result Instruction
dex_instruction pool last =
    if str_eq pool raydium_cpmm
    then ok last
    else if str_eq pool raydium_clmm
    then ok last
    else if str_eq pool pump_swap
    then ok last
    else err (unsupported pool)

module _ {F : Type 0} (d : Decimals F) (fee_percent : d.D) (tm : Manager) where
  -- The amount in whole units of the token.
  abbrev pub scaled_amount : SwapTx → Result d.D
  scaled_amount tx = do
    amount ← d.of_string tx.amount_in
    ok (d.mul_d amount (d.of_int (pos (decimals2value tx.in_decimal))))

  abbrev pub service_fee : d.D → ℕ
  service_fee amount = uint64 (d.int_part (d.mul_d amount fee_percent))

  -- The payment of a buy into the wallet's own account of wrapped SOL, with the cost that it adds.
  abbrev pub pay_in : SwapTx → d.D → String → ℕ → ℕ → Result (List Instruction × ℕ)
  pay_in tx amount in_ata balance cost =
      if str_eq tx.in_mint tm.wrapped_sol
      then (if ltb balance (uint64 (d.int_part amount)) then err sol_balance_not_enough else (do
        move ←
            tm.build
              (Instruction.transfer (uint64 (d.int_part amount)) tx.user_wallet_account in_ata)
        sync ← tm.build (Instruction.sync_native in_ata)
        ok (move ∷ sync ∷ [], cost +64 (service_fee amount +64 uint64 (d.int_part amount)))))
      else ok ([], cost)

  -- The account of wrapped SOL is closed after a buy; `amountOut` stays 0, so that of a sell is
  -- not.
  abbrev pub close_in : SwapTx → String → Result (List Instruction)
  close_in tx in_ata =
      if str_eq tx.in_mint tm.wrapped_sol
      then (do
        close ← tm.build (Instruction.close_account in_ata tx.user_wallet_account)
        ok (close ∷ []))
      else ok []

  abbrev pub affordable : ℕ → ℕ → Result ℕ
  affordable balance cost = if ltb balance cost then err sol_gas_not_enough else ok cost

  unfoldable pub create_market_order_dex : SwapTx → Result (List Instruction)
  create_market_order_dex tx = do
    amount ← scaled_amount tx
    units ← units_of_pool tx.trade_pool_name
    gas ← create_gas tm units (gas_mode tx.gas_type)
    create_in ←
        tm.build (Instruction.create_ata tx.user_wallet_account tx.in_mint tx.in_token_program)
    in_ata ← tm.ata_of tx.user_wallet_account tx.in_mint tx.in_token_program
    out_ata ← tm.ata_of tx.user_wallet_account tx.out_mint tx.out_token_program
    balance ← tm.balance tx.user_wallet_account
    paid ← pay_in tx amount in_ata balance ((tm.rent_fee * 2) % 2 ^ 64 +64 gas.1)
    cost ← affordable balance paid.1
    create_out ←
        tm.build (Instruction.create_ata tx.user_wallet_account tx.out_mint tx.out_token_program)
    swap ← dex_instruction tx.trade_pool_name create_out
    closing ← close_in tx in_ata
    ok (gas.0 ++ ((create_in ∷ []) ++ (paid.0 ++ (create_out ∷ swap ∷ closing))))
