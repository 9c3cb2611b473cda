-- ===== src/Solana/Positions.antt =====
-- solana/txManager.go: `findTickArrays` with `priceToTick`, and `buildOpenPositionInstruction`.
pub mod Opens
pub mod Placed
use greet.Base.{
  ℕ, ◌==◌, ◌%◌, ◌^◌, ◌+◌, ◌-◌, ltb, String, true, false, if◌then◌else◌, List, [], ◌∷◌, ◌++◌, Option,
  none, some, Error, Result, ok, err, value_or, Floats, Decimals,
}
use greet.Base.Bytes.{le_bytes, be_bytes}
use greet.Base.Int.{ℤ, pos, negsuc}
use greet.Base.Text.{codes}
use greet.Solana.Types.{AccountMeta, Instruction}
use greet.Solana.Pools.{PoolNode, read_only, changed, raydium_program}
use greet.Solana.Ticks.{tick_with_spacing, get_tick_array_start_index_by_tick}

-- `math.Log`, the constant 1.0001 and Go's `int` of a float.
pub record Logs (f : Floats) : Type 0 where
  pub log_f : f.F → f.F
  pub q_ratio : f.F
  pub int_of : f.F → ℤ

-- `uint32(n)`
abbrev pub uint32 : ℤ → ℕ
uint32 (pos n) = n % 2 ^ 32
uint32 (negsuc n) = (2 ^ 32 - (n + 1) % 2 ^ 32) % 2 ^ 32

-- A signed number of four bytes.
abbrev pub int32_of : ℕ → ℤ
int32_of n = if ltb n (2 ^ 31) then pos n else negsuc (2 ^ 32 - 1 - n)

-- The key of 32 zero bytes, which `FindProgramAddress` gives beside an error.
abbrev pub zero_key : String
zero_key = "11111111111111111111111111111111"

abbrev pub failure_of {ℓ} : {A : Type ℓ} → Result A → Option Error
failure_of (ok _) = none
failure_of (err e) = some e

-- What `findTickArrays` returns, the error beside the values.
pub record TickArrays : Type 0 where
  pub tick_array_lower : String
  pub tick_array_upper : String
  pub lower_start : ℤ
  pub upper_start : ℤ
  pub tick_lower : ℤ
  pub tick_upper : ℤ
  pub failure : Option Error

-- The arguments of `buildOpenPositionInstruction`, without those that it only logs.
pub record OpenPosition : Type 0 where
  pub user_wallet : String
  pub position_mint : String
  pub pool_state : String
  pub user_token_a : String
  pub user_token_b : String
  pub token_vault_a : String
  pub token_vault_b : String
  pub tick_lower : ℤ
  pub tick_upper : ℤ
  pub tick_array_lower : String
  pub tick_array_upper : String
  pub position_pda : String
  pub amount0_max : ℕ
  pub amount1_max : ℕ
  pub lower_start : ℤ
  pub upper_start : ℤ
  pub protocol_position_pda : String

abbrev pub token_program : String
token_program = "TokenkegQfeZyiNwAJbNbGKPFXCWuBvf9Ss623VQ5DA"

abbrev pub ata_program : String
ata_program = "ATokenGPvbdGVxr1b2hvZbsiqW5xWH25efTNsLJA8knL"

abbrev pub metadata_program : String
metadata_program = "metaqbxxUerdq28cj1RbAWkYQm3ybzjb6a8bt518x1s"

abbrev pub signs_changed : String → AccountMeta
signs_changed key = record { key = key; writable = true; signer = true }

abbrev pub position_accounts : OpenPosition → String → String → List AccountMeta
position_accounts p metadata ata =
    signs_changed p.user_wallet
    ∷ record { key = p.user_wallet; writable = false; signer = true }
    ∷ signs_changed p.position_mint
    ∷ changed ata
    ∷ changed metadata
    ∷ changed p.pool_state
    ∷ changed p.protocol_position_pda
    ∷ changed p.tick_array_lower
    ∷ changed p.tick_array_upper
    ∷ changed p.position_pda
    ∷ changed p.user_token_a
    ∷ changed p.user_token_b
    ∷ changed p.token_vault_a
    ∷ changed p.token_vault_b
    ∷ read_only "SysvarRent111111111111111111111111111111111"
    ∷ read_only "11111111111111111111111111111111"
    ∷ read_only token_program
    ∷ read_only ata_program
    ∷ read_only metadata_program
    ∷ []

-- The ticks, the starts of their arrays, the liquidity, which is the first amount, the amounts, and
-- the flags.
abbrev pub position_bytes : OpenPosition → List ℕ
position_bytes p =
    (135 ∷ 128 ∷ 47 ∷ 77 ∷ 15 ∷ 152 ∷ 240 ∷ 49 ∷ [])
    ++ (le_bytes 4 (uint32 p.tick_lower)
        ++ (le_bytes 4 (uint32 p.tick_upper)
            ++ (le_bytes 4 (uint32 p.lower_start)
                ++ (le_bytes 4 (uint32 p.upper_start)
                    ++ (le_bytes 8 p.amount0_max
                        ++ (le_bytes 8 0
                            ++ (le_bytes 8 p.amount0_max
                                ++ (le_bytes 8 p.amount1_max ++ (1 ∷ 0 ∷ 0 ∷ [])))))))))

module _ (f : Floats) (logs : Logs f) (d : Decimals f.F) (node : PoolNode d) where
  open f use {F}

  -- `priceToTick`
  abbrev pub price_to_tick : F → ℤ
  price_to_tick price = logs.int_of (f.div_f (logs.log_f price) (logs.log_f logs.q_ratio))

  -- The tick of a price that is given in millionths.
  abbrev pub tick_of : ℤ → ℤ
  tick_of price = price_to_tick (d.to_float (d.div_d (d.of_int price) (d.of_int (pos 1000000))))

  abbrev pub tick_array_address : String → ℤ → String → Result String
  tick_array_address pool start program =
      node.find_program_address
        (codes "tick_array" ∷ node.key_bytes pool ∷ be_bytes 4 (uint32 start) ∷ []) program

  abbrev pub tick_arrays_of : String → String → ℤ → ℤ → ℤ → ℤ → TickArrays
  tick_arrays_of pool program tick_lower tick_upper lower_start upper_start =
      let lower = tick_array_address pool lower_start program in
      let upper = tick_array_address pool upper_start program in
      record {
        tick_array_lower = value_or zero_key lower;
        tick_array_upper = value_or zero_key upper;
        lower_start = lower_start;
        upper_start = upper_start;
        tick_lower = tick_lower;
        tick_upper = tick_upper;
        failure = failure_of upper;
      }

  -- `findTickArrays`; a spacing of 0 is a division by 0.
  unfoldable pub find_tick_arrays : String → ℕ → ℤ → ℤ → String → Option TickArrays
  unfolding tick_with_spacing get_tick_array_start_index_by_tick
  find_tick_arrays pool spacing lower_price upper_price program =
      let tick_lower = tick_with_spacing (tick_of lower_price) spacing in
      let tick_upper = tick_with_spacing (tick_of upper_price) spacing in
      if spacing == 0
      then none
      else some (
          tick_arrays_of pool program tick_lower tick_upper
            (get_tick_array_start_index_by_tick tick_lower spacing 60)
            (get_tick_array_start_index_by_tick tick_upper spacing 60))

  -- The account of the metadata, and the token account of the position.
  abbrev pub metadata_account : String → String
  metadata_account mint = value_or zero_key (
      node.find_program_address
        (codes "metadata" ∷ node.key_bytes metadata_program ∷ node.key_bytes mint ∷ [])
        metadata_program)

  abbrev pub position_ata : String → String → String
  position_ata wallet mint = value_or wallet (
      node.find_program_address
        (node.key_bytes wallet ∷ node.key_bytes token_program ∷ node.key_bytes mint ∷ [])
        ata_program)

  -- `buildOpenPositionInstruction`
  unfoldable pub build_open_position_instruction : OpenPosition → Instruction
  build_open_position_instruction p =
      Instruction.program raydium_program
        (position_accounts p (metadata_account p.position_mint)
          (position_ata p.user_wallet p.position_mint))
        (position_bytes p)
