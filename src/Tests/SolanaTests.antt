-- ===== src/Tests/SolanaTests.antt =====
-- Runs of the builders of swaps, of the sending and of the quotes, and the theorems at them.
use Prim.Native.String.{◌++◌ as ◌<>◌}
use greet.Base.{
  ◌-◌, ◌*◌, ◌/◌, ℕ, zero, suc, ltb, ◌≡◌, refl, String, true, false, if◌then◌else◌, List, [], ◌∷◌,
  length, none, some, Error, Result, ok, err, error_text, arith,
}
use greet.Base.Text.{itoa}
use greet.Base.Int.{negsuc}
use greet.Base.Text.{contains}
use greet.Solana.Types.{SwapTx, Instruction, Manager}
use greet.Solana.Gas.{create_gas}
use greet.Solana.Dex.{create_market_order_dex}
use greet.Solana.Dex.NoSwap.{Built, create_market_order_dex-Built}
use greet.Solana.PumpFun.{create_market_order_pumpfun}
use greet.Solana.Send.{Network, send_via_jito_retry, create_swap_tx, sign}
use greet.Solana.Send.Attempts.{Sound, create_swap_tx-Sound}
use greet.Solana.Ticks.{tick_with_spacing}
use greet.Quotes.{calc_ps_base_amount_out, BondingCurve}
use greet.Quotes.Product.{IsTrade, calc_ps_base_amount_out-IsTrade}
use greet.Tests.Concrete.{decimals}

abbrev pub manager : Manager
manager = record {
  wrapped_sol = "sol";
  token_program_id = "Token";
  rent_fee = 2039280;
  public_key = λ s. ok s;
  build = λ i. ok i;
  ata_of = λ wallet mint program. ok "ata";
  balance = λ wallet. ok 10000000000;
  build_buy = λ user mint amount slippage _ _ _.
      ok (Instruction.program "pump" [] (amount ∷ slippage ∷ []));
  build_sell = λ ata user mint amount slippage _ _ _.
      ok (Instruction.program "pump" [] (amount ∷ slippage ∷ []), 0);
}

abbrev pub swap_in : String → SwapTx
swap_in pool = record {
  user_id = 0;
  chain_id = 100000;
  user_wallet_id = 0;
  user_wallet_account = "wallet";
  amount_in = "3";
  is_anti_mev = true;
  slippage = 5000;
  is_auto_slippage = false;
  gas_type = 1;
  trade_pool_name = pool;
  in_decimal = 9;
  out_decimal = 9;
  in_mint = "sol";
  out_mint = "tok";
  pair_addr = "pair";
  price = "3";
  use_price_limit = false;
  in_token_program = "Token";
  out_token_program = "Token";
}

abbrev dex_list : List Instruction
dex_list =
    Instruction.set_unit_price 966666
    ∷ Instruction.set_unit_limit 150000
    ∷ Instruction.create_ata "wallet" "sol" "Token"
    ∷ Instruction.transfer 3000000000 "wallet" "ata"
    ∷ Instruction.sync_native "ata"
    ∷ Instruction.create_ata "wallet" "tok" "Token"
    ∷ Instruction.create_ata "wallet" "tok" "Token"
    ∷ Instruction.close_account "ata" "wallet"
    ∷ []

dex_built : create_market_order_dex decimals 0 manager (swap_in "PumpSwap") ≡ ok dex_list
unfolding create_market_order_dex create_gas
dex_built = refl

create_market_order_dex-Built_example : Built decimals 0 manager (swap_in "PumpSwap") dex_list
create_market_order_dex-Built_example =
    create_market_order_dex-Built decimals 0 manager (swap_in "PumpSwap") dex_built

abbrev pump_list : List Instruction
pump_list =
    Instruction.set_unit_price 1450000
    ∷ Instruction.set_unit_limit 100000
    ∷ Instruction.create_ata "wallet" "tok" "Token"
    ∷ Instruction.program "pump" [] (3000000000 ∷ 5000 ∷ [])
    ∷ []

-- Jito's first answer is a rate limit.
abbrev jito : ℕ → Result String
jito n = elim n [ zero ↦ err (Error.other "code -32097: rate limited") | suc k ↦ ok "sig" ]

abbrev pub zeros : ℕ → List ℕ
zeros zero = []
zeros (suc n) = 0 ∷ zeros n

abbrev pub network : Network
network = record {
  Tx = ℕ;
  latest_blockhash = ok "hash";
  new_transaction = λ is hash payer. ok (length is);
  private_key = "key";
  base58 = λ s. ok (zeros 64);
  message_bytes = λ tx. ok [];
  ed25519_sign = λ key message. "sig";
  simulation = λ tx. ok none;
  jito_send = λ n tx sig. jito n;
  node_send = λ tx sig. ok "sig";
  simulate_only = false;
}

second_send :
    create_swap_tx network decimals 0 manager (swap_in "PumpFun")
    ≡ record { sends = 2; result = ok "sig" }
unfolding create_swap_tx create_market_order_pumpfun create_gas sign send_via_jito_retry contains
    error_text
second_send = refl

create_swap_tx-Sound_example :
    Sound network true (create_swap_tx network decimals 0 manager (swap_in "PumpFun"))
create_swap_tx-Sound_example = create_swap_tx-Sound network decimals 0 manager (swap_in "PumpFun")

below_zero : tick_with_spacing (negsuc 60) 60 ≡ negsuc 119
unfolding tick_with_spacing
below_zero = refl

calc_ps_base_amount_out-IsTrade_example :
    (out : ℕ) × IsTrade 1000 5000 (100 - 100 * 25 / 10000) out
    × (calc_ps_base_amount_out 1000 5000 100 25 10000
        ≡ some (
            if ltb 0 out
            then ok out
            else err (Error.other ("calculated tokens received is not positive: " <> itoa out))))
calc_ps_base_amount_out-IsTrade_example =
    calc_ps_base_amount_out-IsTrade 1000 5000 100 25 9999 (omega arith) (omega arith) (omega arith)

abbrev curve : BondingCurve
curve = record { virtual_sol_reserves = 30000; virtual_token_reserves = 1073000 }
