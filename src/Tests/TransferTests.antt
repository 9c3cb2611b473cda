-- ===== src/Tests/TransferTests.antt =====
-- Runs of the decoding of transfers, of the SOL price and of the token accounts, and the theorems
-- at them.
use greet.Base.{
  ℕ, ◌≡◌, refl, inl, inr, String, true, false, List, [], ◌∷◌, ◌++◌, All, Option, none, some, Result,
  ok, arith,
}
use greet.Base.Int.{pos}
use greet.Transfers.Types.{
  CompiledInstruction, InnerInstruction, TransferParam, TokenAccount, TokenBalance,
  BlockTransaction, program_token, wrap_sol, usdc,
}
use greet.Transfers.Decode.{decode_token_transfer}
use greet.Transfers.Decode.Laws.{
  InRange, transfer_instruction, checked_instruction, decode_token_transfer_roundtrip,
}
use greet.Transfers.Price.{
  Accounts, Event, price_loop, price_step, is_swap_transfer, get_block_sol_price_by_transfer,
}
use greet.Transfers.Price.Swap.{events, swap_price, get_block_sol_price_by_transfer-swap_price}
use greet.Transfers.Average.{filtered, remove_min_and_max_and_calculate_average}
use greet.Transfers.Accounts.{
  fill_decimals, fill_token_account_map, decode_init_account_instruction, parse_int,
}
use greet.Transfers.Accounts.Decimals.{Knows, HasDecimals, fill_decimals-HasDecimals}
use greet.Tests.Concrete.{floats}

abbrev keys : List String
keys =
    "pool_sol" ∷ "user_sol" ∷ "pool" ∷ program_token ∷ "user_usd" ∷ "pool_usd" ∷ "user" ∷ "mint"
    ∷ []

-- 5 from the pool's SOL account to the user's.
abbrev sol_out : CompiledInstruction
sol_out = transfer_instruction 3 0 1 2 [] 5

-- 1000 from the user's USD account to the pool's.
abbrev usd_in : CompiledInstruction
usd_in = checked_instruction 3 4 7 5 6 [] 1000 6

in_range : InRange keys sol_out
in_range = (omega arith, (omega arith, (omega arith, (omega arith, tt))))

decode_token_transfer_roundtrip_example :
    let transfer : Option (Result TransferParam) =
      some (ok (record { from = "pool_sol"; to = "user_sol"; auth = "pool"; amount = 5 })) in
    (decode_token_transfer keys sol_out ≡ transfer)
    × (decode_token_transfer keys (checked_instruction 3 0 7 1 2 [] 5 9) ≡ transfer)
decode_token_transfer_roundtrip_example =
    decode_token_transfer_roundtrip keys 3 0 1 2 [] 5 refl refl refl (omega arith) 7 9 refl
      (inl refl)

abbrev account : String → String → ℕ → TokenAccount
account owner mint decimal = record {
  owner = owner;
  token_account_address = "";
  token_address = mint;
  token_decimal = decimal;
  pre_value = pos 0;
  post_value = pos 0;
  closed = false;
  init = false;
  post_value_ui_string = "";
  pre_value_ui_string = "";
}

abbrev accounts : Accounts
accounts =
    ("pool_sol", account "pool" wrap_sol 9)
    ∷ ("user_sol", account "user" wrap_sol 0)
    ∷ ("user_usd", account "user" usdc 6)
    ∷ ("pool_usd", account "pool" usdc 6)
    ∷ []

abbrev chain_of : InnerInstruction
chain_of = record { index = 0; instructions = sol_out ∷ usd_in ∷ [] }

abbrev sol_transfer : TransferParam
sol_transfer = record { from = "pool_sol"; to = "user_sol"; auth = "pool"; amount = 5 }

abbrev usd_transfer : TransferParam
usd_transfer = record { from = "user_usd"; to = "pool_usd"; auth = "user"; amount = 1000 }

swap_price_example :
    get_block_sol_price_by_transfer floats keys (some chain_of) accounts ≡ some 200000
unfolding get_block_sol_price_by_transfer price_loop price_step decode_token_transfer
    is_swap_transfer
swap_price_example = refl

two_events :
    events keys accounts chain_of.instructions
    ≡ some (Event.moves_sol sol_transfer ∷ Event.moves_usd usd_transfer ∷ [])
unfolding decode_token_transfer
two_events = refl

get_block_sol_price_by_transfer-swap_price_example :
    (get_block_sol_price_by_transfer floats keys none accounts ≡ some 0)
    × (get_block_sol_price_by_transfer floats keys (some chain_of) accounts
        ≡ some (
            swap_price floats accounts Event.breaks
              (Event.moves_sol sol_transfer ∷ Event.moves_usd usd_transfer ∷ [])))
get_block_sol_price_by_transfer-swap_price_example =
    get_block_sol_price_by_transfer-swap_price floats keys accounts chain_of two_events

average_of_four : remove_min_and_max_and_calculate_average floats (7 ∷ 100 ∷ 1 ∷ 9 ∷ []) ≡ 8
unfolding remove_min_and_max_and_calculate_average filtered
average_of_four = refl

fill_decimals-HasDecimals_example : All (HasDecimals wrap_sol 9) (fill_decimals accounts)
fill_decimals-HasDecimals_example =
    fill_decimals-HasDecimals wrap_sol 9 accounts refl (Knows.here refl refl)
      (λ _. inr refl, (λ _. inl refl, (λ e. absurd cc, (λ e. absurd cc, tt))))

-- A transaction that opens an account for a user, and whose one balance does not change.
abbrev balance : TokenBalance
balance = record {
  account_index = 0;
  mint = wrap_sol;
  owner = "pool";
  amount = "250";
  decimals = 9;
  ui_amount_string = "";
}

abbrev opening : BlockTransaction
opening = record {
  account_keys = keys;
  signature = "sig";
  instructions = record { program_id_index = 3; accounts = 1 ∷ 7 ∷ 6 ∷ []; bytes = 1 ∷ [] } ∷ [];
  inner_instructions = [];
  pre_token_balances = balance ∷ [];
  post_token_balances = balance ∷ [];
  log_messages = [];
  failed = false;
}

opened :
    fill_token_account_map (λ bytes. "") opening []
    ≡ some (record {
      accounts =
          (
            "pool_sol",
            record (account "pool" wrap_sol 9) {
              token_account_address = "pool_sol";
              pre_value = pos 250;
              post_value = pos 250;
            },
          )
          ∷ (
            "user_sol",
            record (account "user" "mint" 0) { token_account_address = "user_sol"; init = true },
          )
          ∷ [];
      has_change = false;
    })
unfolding fill_token_account_map fill_decimals decode_init_account_instruction parse_int
opened = refl

-- The first instruction is one of Orca, and its transfers are listed under its index, 0.
abbrev orca_keys : List String
orca_keys = keys ++ ("whirLbMiicVdio4qvUfM5KAg6Ct8VwpYzGff3uctyCc" ∷ [])

abbrev orca_swap : CompiledInstruction
orca_swap = record { program_id_index = 8; accounts = []; bytes = [] }
