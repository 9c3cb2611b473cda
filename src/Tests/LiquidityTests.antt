-- ===== src/Tests/LiquidityTests.antt =====
-- Liquidity for a pool of SOL and a token.
use greet.Base.{
  ℕ, ◌≡◌, refl, ◌==◌, if◌then◌else◌, inr, String, true, List, [], ◌∷◌, ◌++◌, none, some, ok,
}
use greet.Base.Int.{pos}
use greet.Solana.Types.{Instruction}
use greet.Solana.Ticks.{tick_with_spacing, get_tick_array_start_index_by_tick}
use greet.Solana.Positions.{TickArrays, find_tick_arrays, build_open_position_instruction}
use greet.Solana.Liquidity.{
  AddLiquidityTx, Accounts, PoolVaults, LiquidityKeys, pool_vaults, position_of, position_sides,
  create_add_liquidity_instructions,
}
use greet.Solana.Liquidity.Sides.{LiquidityAdded, create_add_liquidity_instructions-LiquidityAdded}
use greet.Tests.Concrete.{floats, decimals}
use greet.Tests.SolanaTests.{manager, zeros}
use greet.Tests.PoolTests.{node}
use greet.Tests.PositionTests.{logs}

abbrev name_of : ℕ → String
name_of n =
    if n == 1
    then "sol"
    else if n == 2
    then "tok"
    else if n == 3
    then "sol vault"
    else if n == 4
    then "tok vault"
    else "observation"

abbrev key_of : List ℕ → String
key_of [] = "observation"
key_of (b ∷ bs) = name_of b

abbrev pool_data : List ℕ
pool_data =
    zeros 73
    ++ (1 ∷ zeros 31
        ++ (2 ∷ zeros 31 ++ (3 ∷ zeros 31 ++ (4 ∷ zeros 31 ++ (zeros 34 ++ (60 ∷ 0 ∷ []))))))

abbrev accounts : Accounts
accounts = record {
  owner = λ pool. ok "raydium";
  account_data = λ pool. ok pool_data;
  has_account = λ key. true;
  key_from_bytes = key_of;
  new_wallet = "mint";
}

abbrev tx : AddLiquidityTx
tx = record {
  chain_id = 100000;
  pool_id = "pool";
  tick_lower = pos 130000000;
  tick_upper = pos 1000000000;
  base_token = 0;
  base_amount = "3";
  other_amount_max = "3";
  user_wallet_address = "wallet";
  token_a_address = "tok";
  token_b_address = "sol";
}

abbrev keys : LiquidityKeys ℕ
keys = record {
  user_wallet = "wallet";
  pool_state = "pool";
  token_a = "tok";
  token_b = "sol";
  base_amount = 3;
  other_amount = 3;
}

abbrev vaults : PoolVaults
vaults = record {
  token_mint0 = "sol";
  token_mint1 = "tok";
  token_vault0 = "sol vault";
  token_vault1 = "tok vault";
  observation = "observation";
  tick_spacing = 60;
}

vaults_read : pool_vaults accounts pool_data ≡ some vaults
vaults_read = refl

abbrev arrays : TickArrays
arrays = record {
  tick_array_lower = "pda";
  tick_array_upper = "pda";
  lower_start = pos 0;
  upper_start = pos 0;
  tick_lower = pos 120;
  tick_upper = pos 960;
  failure = none;
}

abbrev added : List Instruction
unfolding build_open_position_instruction
added =
    Instruction.transfer 3 "wallet" "pda"
    ∷ Instruction.sync_native "pda"
    ∷ build_open_position_instruction floats logs decimals node (
        position_of floats logs decimals node manager accounts keys
          (position_sides floats logs decimals node manager accounts keys vaults) ("pda", "pda")
          "pda" arrays "pda")
    ∷ []

tx_added :
    create_add_liquidity_instructions floats logs decimals node manager accounts tx
    ≡ some (ok added)
unfolding create_add_liquidity_instructions added find_tick_arrays tick_with_spacing
    get_tick_array_start_index_by_tick
tx_added = refl

create_add_liquidity_instructions-LiquidityAdded_example :
    LiquidityAdded floats logs decimals node manager accounts keys vaults added
create_add_liquidity_instructions-LiquidityAdded_example =
    create_add_liquidity_instructions-LiquidityAdded floats logs decimals node manager accounts tx
      keys pool_data vaults refl refl vaults_read refl (inr (refl, refl)) tx_added
