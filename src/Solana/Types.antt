-- ===== src/Solana/Types.antt =====
-- The data of a swap on Solana, and what the builders call of github.com/gagliardetto/solana-go and
-- of pkg/sol. Keys are their texts in base 58.
use greet.Base.{ℕ, ◌+◌, ◌-◌, ◌%◌, ◌^◌, ◌==◌, leb, String, Bool, List, if◌then◌else◌, Error, Result}
use greet.Base.Int.{ℤ, pos, negsuc}

-- `CreateMarketTx` of txManager.go.
pub record SwapTx : Type 0 where
  pub user_id : ℕ  -- uint64
  pub chain_id : ℕ  -- uint64
  pub user_wallet_id : ℕ  -- uint32
  pub user_wallet_account : String
  pub amount_in : String
  pub is_anti_mev : Bool
  pub slippage : ℕ  -- uint32
  pub is_auto_slippage : Bool
  pub gas_type : ℕ  -- int32, by its bit pattern
  pub trade_pool_name : String
  pub in_decimal : ℕ  -- uint8
  pub out_decimal : ℕ  -- uint8
  pub in_mint : String
  pub out_mint : String
  pub pair_addr : String
  pub price : String
  pub use_price_limit : Bool
  pub in_token_program : String
  pub out_token_program : String

-- `solana.AccountMeta`
pub record AccountMeta : Type 0 where
  pub key : String
  pub writable : Bool
  pub signer : Bool

-- The instructions that the builders make.
pub data Instruction : Type 0 where
  set_unit_price : ℕ → Instruction
  set_unit_limit : ℕ → Instruction
  create_ata : String → String → String → Instruction  -- wallet, mint, token program
  transfer : ℕ → String → String → Instruction
  sync_native : String → Instruction
  close_account : String → String → Instruction
  program : String → List AccountMeta → List ℕ → Instruction  -- any program, accounts, data

-- The libraries, the node and the state of the manager. `build` is `ValidateAndBuild`, which checks
-- the accounts of an instruction; the last two stand for `BuildBuyInstruction` and
-- `BuildSellInstruction` of pkg/pumpfun, which ask the node for the bonding curve (the second also
-- gives the volume of SOL); the price is handed to them as its text, for the float of its decimal.
pub record Manager : Type 0 where
  pub wrapped_sol : String
  pub token_program_id : String
  pub rent_fee : ℕ
  pub public_key : String → Result String
  pub build : Instruction → Result Instruction
  pub ata_of : String → String → String → Result String
  pub balance : String → Result ℕ
  pub build_buy : String → String → ℕ → ℕ → String → ℕ → ℕ → Result Instruction
  pub build_sell : String → String → String → ℕ → ℕ → String → ℕ → ℕ → Result (Instruction × ℕ)

-- `uint64(n)` of an int64.
abbrev pub uint64 : ℤ → ℕ
uint64 (pos n) = n % 2 ^ 64
uint64 (negsuc n) = (2 ^ 64 - (n + 1) % 2 ^ 64) % 2 ^ 64

-- A sum of uint64.
infixl 65 ◌+64◌
abbrev pub ◌+64◌ : ℕ → ℕ → ℕ
a +64 b = (a + b) % 2 ^ 64

-- `Decimals2Value`; another decimal is missing, which reads as 0.
abbrev pub decimals2value : ℕ → ℕ
decimals2value n = if leb n 18 then 10 ^ n else 0

abbrev pub sol_balance_not_enough : Error
sol_balance_not_enough = Error.code 6012

abbrev pub sol_gas_not_enough : Error
sol_gas_not_enough = Error.code 6013

-- `GasMODE` of pkg/sol; another gas type is missing, which reads as 0.
abbrev pub gas_mode : ℕ → ℕ
gas_mode t =
    if t == 0
    then 5000
    else if t == 1
    then 150000
    else if t == 2
    then 4500000
    else if t == 3
    then 15000000
    else 0
