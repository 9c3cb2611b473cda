-- ===== src/Transfers/Types.antt =====
-- The data of a block as block/price.go and block/pump.go read it: the types of
-- github.com/blocto/solana-go-sdk that stand in their signatures, with the fields that are read,
-- and `TokenAccount` of block/types.go. A key is its text in base 58, which is one for each key.
use greet.Base.{ℕ, String, Bool, if◌then◌else◌, str_eq, List, [], ◌∷◌, Option, none, some}
use greet.Base.Int.{ℤ}

-- types.CompiledInstruction.
pub record CompiledInstruction : Type 0 where
  pub program_id_index : ℕ
  pub accounts : List ℕ
  pub bytes : List ℕ

-- client.InnerInstruction
pub record InnerInstruction : Type 0 where
  pub index : ℕ
  pub instructions : List CompiledInstruction

-- token.TransferParam
pub record TransferParam : Type 0 where
  pub from : String
  pub to : String
  pub auth : String
  pub amount : ℕ

-- rpc.TokenBalance
pub record TokenBalance : Type 0 where
  pub account_index : ℕ
  pub mint : String
  pub owner : String
  pub amount : String
  pub decimals : ℕ
  pub ui_amount_string : String

-- client.BlockTransaction; `failed` is `Meta.Err != nil`.
pub record BlockTransaction : Type 0 where
  pub account_keys : List String
  pub signature : String
  pub instructions : List CompiledInstruction
  pub inner_instructions : List InnerInstruction
  pub pre_token_balances : List TokenBalance
  pub post_token_balances : List TokenBalance
  pub log_messages : List String
  pub failed : Bool

pub record TokenAccount : Type 0 where
  pub owner : String
  pub token_account_address : String
  pub token_address : String
  pub token_decimal : ℕ  -- uint8
  pub pre_value : ℤ
  pub post_value : ℤ
  pub closed : Bool
  pub init : Bool
  pub post_value_ui_string : String
  pub pre_value_ui_string : String

-- A Go map keyed by texts.
abbrev pub Map : Type 0 → Type 0
Map V = List (String × V)

module _ {V : Type 0} where
  abbrev pub lookup : Map V → String → Option V
  lookup [] k = none
  lookup ((k', v) ∷ m) k = if str_eq k' k then some v else lookup m k

  -- `m[k] = v`
  abbrev pub set : String → V → Map V → Map V
  set k v [] = (k, v) ∷ []
  set k v ((k', v') ∷ m) =
      let rest = set k v m in if str_eq k' k then (k', v) ∷ m else (k', v') ∷ rest

abbrev pub wrap_sol : String
wrap_sol = "So11111111111111111111111111111111111111112"

abbrev pub usdc : String
usdc = "EPjFWdd5AufqSSqeM2qN1xzybapC8G4wEGGkZwyTDt1v"

abbrev pub usdt : String
usdt = "Es9vMFrzaCERmJfrF4H2FYD4KCoNkY11McCe8BenwNYB"

abbrev pub program_token : String
program_token = "TokenkegQfeZyiNwAJbNbGKPFXCWuBvf9Ss623VQ5DA"

abbrev pub program_token2022 : String
program_token2022 = "TokenzQdBNbLqP5VEhdkAS6EPFLC1PHnBqCXEpPxuEb"
