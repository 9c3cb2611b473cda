-- ===== src/Tests/PumpSdkTests.antt =====
-- The PumpFun client at concrete accounts.
use greet.Base.{
  Error, ap, err, ◌≤◌, ◌++◌, ℕ, ◌*◌, ◌<◌, ◌≡◌, refl, str_eq, if◌then◌else◌, List, [], ◌∷◌, Option,
  none, some, Result, ok, arith,
}
use greet.Base.Int.{ℤ, pos, pos_part}
use greet.Solana.Types.{Manager, uint64, Instruction}
use greet.Base.Bytes.{uint64_of}
use greet.Quotes.{calculate_buy_quote}
use greet.PumpSdk.Node.{PumpNode, get_curve_keys}
use greet.PumpSdk.Curve.{fetch_bonding_curve}
use greet.PumpSdk.Curve.Roundtrip.{curve_bytes, fetch_bonding_curve_roundtrip}
use greet.PumpSdk.Creator.{
  creator_of_curve, curve_discriminator, get_creator_and_vault_from_transactions,
}
use greet.PumpSdk.Swap.{build_buy_instruction}
use greet.PumpSdk.Swap.Spends.{BuyFor, build_buy_instruction-BuyFor}
use greet.Solana.PumpFun.{create_market_order_pumpfun}
use greet.Solana.Gas.{create_gas}
use greet.Solana.Dex.{scaled_amount}
use greet.Solana.PumpFun.Buys.{UsesClient, create_market_order_pumpfun-BuyFor}
use greet.Tests.SolanaTests.{manager, swap_in}
use greet.Tests.Concrete.{floats, decimals}

abbrev creator : List ℕ
creator =
    1 ∷ 2 ∷ 3 ∷ 4 ∷ 5 ∷ 6 ∷ 7 ∷ 8 ∷ 1 ∷ 2 ∷ 3 ∷ 4 ∷ 5 ∷ 6 ∷ 7 ∷ 8 ∷ 1 ∷ 2 ∷ 3 ∷ 4 ∷ 5 ∷ 6 ∷ 7 ∷ 8
    ∷ 1 ∷ 2 ∷ 3 ∷ 4 ∷ 5 ∷ 6 ∷ 7 ∷ 8 ∷ []

abbrev account_bytes : List ℕ
account_bytes = curve_bytes 1000 30 800 0 1000 0 creator (0 ∷ [])

-- A node with the curve of one mint.
abbrev node : PumpNode
node = record {
  find_program_address = λ seeds program. ok (
    (if str_eq program "6EF8rrecthR5Dkzon8Nwu78hRvfCKubJ14M5uBEwF6P" then "pda" else "other"),
    255,
  );
  find_ata = λ wallet mint. ok "ata";
  key_bytes = λ key. [];
  key_of_bytes = λ bytes. "creator";
  public_key = λ text. ok text;
  account = λ key. if str_eq key "pda" then ok (some account_bytes) else ok none;
  fee_recipient = λ bytes. ok "recipient";
  token_balance = λ key. ok "3";
  atoi = λ text. ok 3;
}

abbrev percent : ℤ → ℕ → ℤ
percent z share = pos (pos_part z * share)

abbrev buy : Option (Result Instruction)
buy = build_buy_instruction floats decimals percent (λ slippage. 1) node "user" "mint" 30 100 0 9 6

abbrev bought : Instruction
bought = elim buy [ some (ok i) ↦ i | _ ↦ Instruction.program "" [] [] ]

buy_value : buy ≡ some (ok bought)
unfolding build_buy_instruction get_creator_and_vault_from_transactions get_curve_keys
    fetch_bonding_curve calculate_buy_quote
buy_value = refl

build_buy_instruction-BuyFor_example :
    (tokens : ℕ) × BuyFor node "user" "mint" tokens 30 bought × (0 < tokens) × (0 < 30)
build_buy_instruction-BuyFor_example =
    build_buy_instruction-BuyFor floats decimals percent (λ slippage. 1) node "user" "mint" 30 100 0
      9 6 (omega arith) buy_value

fetch_bonding_curve_roundtrip_example :
    (fetch_bonding_curve node "pda"
      ≡ ok (record {
        real_token_reserves = uint64_of curve_discriminator;
        virtual_token_reserves = 1000;
        virtual_sol_reserves = 30;
      }))
    × (creator_of_curve node account_bytes ≡ ok "creator")
fetch_bonding_curve_roundtrip_example =
    fetch_bonding_curve_roundtrip node "pda" 1000 30 800 0 1000 0 creator (0 ∷ []) (omega arith)
      (omega arith) refl refl

abbrev bought_by : Option (Result Instruction) → Result Instruction
bought_by (some r) = r
bought_by none = err (Error.other "division by zero")

-- A manager whose buys are those of the client.
abbrev client : Manager
client = record manager {
  build_buy = λ user mint amount slippage price in_decimal out_decimal. bought_by (
      build_buy_instruction floats decimals percent (λ slippage. 1) node user mint amount slippage 0
        in_decimal out_decimal);
}

bought_by-eq_ok :
    (o : Option (Result Instruction)) (i : Instruction) → bought_by o ≡ ok i → o ≡ some (ok i)
bought_by-eq_ok (some r) i h = ap some h
bought_by-eq_ok none i h = cc

client-UsesClient : UsesClient floats decimals 0 client node percent (λ slippage. 1) (λ price. 0)
client-UsesClient user mint amount slippage price in_decimal out_decimal i h = bought_by-eq_ok _ i h

abbrev buy_list : List Instruction
buy_list = elim (create_market_order_pumpfun decimals 0 client (swap_in "PumpFun")) [
  | ok is ↦ is
  | err e ↦ []
]

buy_list_built : create_market_order_pumpfun decimals 0 client (swap_in "PumpFun") ≡ ok buy_list
unfolding create_market_order_pumpfun create_gas build_buy_instruction
    get_creator_and_vault_from_transactions get_curve_keys fetch_bonding_curve calculate_buy_quote
buy_list_built = refl

create_market_order_pumpfun-BuyFor_example :
    (amount : ℕ) × (balance tokens : ℕ) × (gas : List Instruction) × (create swap : Instruction)
    × (scaled_amount decimals 0 client (swap_in "PumpFun") ≡ ok amount)
    × (buy_list ≡ gas ++ (create ∷ swap ∷ []))
    × (client.build (Instruction.create_ata "wallet" "tok" client.token_program_id) ≡ ok create)
    × BuyFor node "wallet" "tok" tokens (uint64 (pos amount)) swap
    × (0 < tokens)
    × (0 < uint64 (pos amount))
    × (client.balance "wallet" ≡ ok balance)
    × (uint64 (pos amount) ≤ balance)
create_market_order_pumpfun-BuyFor_example =
    create_market_order_pumpfun-BuyFor floats decimals 0 client node percent (λ slippage. 1)
      (λ price. 0) client-UsesClient (swap_in "PumpFun") buy_list refl buy_list_built
