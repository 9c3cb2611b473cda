-- ===== src/Tests/UnsignedTests.antt =====
-- The unsigned transaction of an order, signed and sent.
use mathlib.Core.Path.{subst}
use greet.Base.{ap, ok-injective, ℕ, zero, suc, ◌≡◌, refl, String, false, List, [], ◌∷◌, ok}
use greet.Order.Types.{CreateMarketTx}
use greet.Solana.Types.{SwapTx, Instruction}
use greet.Solana.Gas.{create_gas}
use greet.Solana.PumpFun.{create_market_order_pumpfun}
use greet.Solana.Send.{convert_create_market_tx}
use greet.Solana.Unsigned.{
  Wire, unsigned_instructions, build_unsigned_transaction, sign_and_send_transaction,
}
use greet.Solana.Unsigned.Sent.{
  RoundTrip, Instructions, SentSigned, sign_and_send_transaction-SentSigned,
}
use greet.Tests.Concrete.{decimals}
use greet.Tests.SolanaTests.{manager, network}

-- A transaction is its number of instructions, and a text in base 64 has as many letters.
abbrev unary : ℕ → String
unary zero = String.[]
unary (suc n) = String.◌∷◌ "a" (unary n)

abbrev count : String → ℕ
count String.[] = 0
count (String.◌∷◌ c s) = suc (count s)

abbrev first_of : List ℕ → ℕ
first_of [] = 0
first_of (n ∷ ns) = n

abbrev pub wire : Wire network
wire = record {
  signers = λ tx. 1;
  marshal = λ tx. ok (tx ∷ []);
  unmarshal = λ bytes. ok (first_of bytes);
  base64 = λ bytes. unary (first_of bytes);
  base64_decode = λ text. ok (count text ∷ []);
}

count-unary : (n : ℕ) → count (unary n) ≡ n
count-unary zero = refl
count-unary (suc n) = ap suc (count-unary n)

wire-RoundTrip : RoundTrip network wire
wire-RoundTrip tx bytes h =
    subst (λ b. (wire.base64_decode (wire.base64 b) ≡ ok b) × (wire.unmarshal b ≡ ok tx))
      (ok-injective _ _ h) (ap (λ n. ok (n ∷ [])) (count-unary tx), refl)

abbrev order_in : String → CreateMarketTx
order_in pool = record {
  user_id = 0;
  chain_id = 100000;
  user_wallet_id = 0;
  user_wallet_address = "wallet";
  amount_in = "3";
  is_anti_mev = false;
  is_auto_slippage = false;
  slippage = 5000;
  gas_type = 1;
  trade_pool_name = pool;
  in_decimal = 9;
  out_decimal = 9;
  in_token_ca = "sol";
  out_token_ca = "tok";
  pair_addr = "pair";
  price = "3";
  use_price_limit = false;
  in_token_program = "";
  out_token_program = "";
}

pump_built :
    build_unsigned_transaction network wire decimals 0 manager (order_in "PumpFun") ≡ ok "aaaa"
unfolding build_unsigned_transaction convert_create_market_tx create_market_order_pumpfun create_gas
pump_built = refl

no_pump_swap :
    (swap : SwapTx)
    → swap.trade_pool_name ≡ "PumpSwap"
    → unsigned_instructions network wire decimals 0 manager swap ≡ ok []
unfolding unsigned_instructions
no_pump_swap swap pool = rw pool refl

sign_and_send_transaction-SentSigned_example :
    (swap : SwapTx) × (is : List Instruction) × (convert_create_market_tx manager
        (order_in "PumpFun")
      ≡ ok swap)
    × Instructions network wire decimals 0 manager swap is
    × SentSigned network wire manager "wallet" is
        (sign_and_send_transaction network wire "aaaa" "other")
sign_and_send_transaction-SentSigned_example =
    sign_and_send_transaction-SentSigned network wire decimals 0 manager (order_in "PumpFun") "aaaa"
      "other" wire-RoundTrip pump_built
