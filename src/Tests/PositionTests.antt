-- ===== src/Tests/PositionTests.antt =====
-- A position between the prices 130 and 4000.
use greet.Base.{◌≡◌, refl, none, some, arith}
use greet.Base.Int.{pos, negsuc}
use greet.Solana.Ticks.{tick_with_spacing, get_tick_array_start_index_by_tick}
use greet.Solana.Positions.{
  Logs, TickArrays, OpenPosition, find_tick_arrays, build_open_position_instruction,
}
use greet.Solana.Positions.Opens.{Opens, build_open_position_instruction-Opens}
use greet.Solana.Positions.Placed.{Placed, find_tick_arrays-Placed}
use greet.Tests.Concrete.{floats, decimals}
use greet.Tests.PoolTests.{node}

abbrev pub logs : Logs floats
logs = record { log_f = λ x. x; q_ratio = 1; int_of = pos }

abbrev found : TickArrays
found = record {
  tick_array_lower = "pda";
  tick_array_upper = "pda";
  lower_start = pos 0;
  upper_start = pos 3600;
  tick_lower = pos 120;
  tick_upper = pos 3960;
  failure = none;
}

arrays_found :
    find_tick_arrays floats logs decimals node "pool" 60 (pos 130000000) (pos 4000000000) "program"
    ≡ some found
unfolding find_tick_arrays tick_with_spacing get_tick_array_start_index_by_tick
arrays_found = refl

find_tick_arrays-Placed_example :
    (a : TickArrays) × (find_tick_arrays floats logs decimals node "pool" 60
        (pos 130000000)
        (pos 4000000000)
        "program"
      ≡ some a)
    × Placed floats logs decimals node "pool" 60 (pos 130000000) (pos 4000000000) "program" a
find_tick_arrays-Placed_example =
    find_tick_arrays-Placed floats logs decimals node "pool" "program" 60 (pos 130000000)
      (pos 4000000000) (omega arith) (omega arith) (omega arith, omega arith)
      (omega arith, omega arith)

abbrev position : OpenPosition
position = record {
  user_wallet = "wallet";
  position_mint = "mint";
  pool_state = "pool";
  user_token_a = "a";
  user_token_b = "b";
  token_vault_a = "vault a";
  token_vault_b = "vault b";
  tick_lower = negsuc 59;
  tick_upper = pos 3960;
  tick_array_lower = "lower";
  tick_array_upper = "upper";
  position_pda = "position";
  amount0_max = 1000;
  amount1_max = 2000;
  lower_start = negsuc 3599;
  upper_start = pos 3600;
  protocol_position_pda = "protocol";
}

build_open_position_instruction-Opens_example :
    Opens position (build_open_position_instruction floats logs decimals node position)
build_open_position_instruction-Opens_example =
    build_open_position_instruction-Opens floats logs decimals node position (
      (omega arith, omega arith),
      (omega arith, omega arith),
      (omega arith, omega arith),
      (omega arith, omega arith),
      omega arith,
      omega arith,
    )
