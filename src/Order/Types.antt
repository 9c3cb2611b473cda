-- ===== src/Order/Types.antt =====
-- The data of a market order: the order row (model/trademodel/tradeordermodel_gen.go), the
-- parameters of a swap (pkg/trade/types.go), the error codes of pkg/xcode that the order flow
-- uses and the names of pkg/constants. The int64 columns hold codes and settings that are not
-- negative, so they are naturals; the two timestamps are set by the database and left out.
use greet.Base.{ℕ, String, Bool, false, ◌==◌, Error}

pub record TradeOrder (F D : Type 0) : Type 0 where
  pub id : ℕ
  pub uid : ℕ
  pub trade_type : ℕ
  pub chain_id : ℕ
  pub token_ca : String
  pub swap_type : ℕ
  pub wallet_index : ℕ
  pub wallet_address : String
  pub is_auto_slippage : ℕ
  pub slippage : ℕ
  pub double_out : ℕ
  pub order_cap : D
  pub order_amount : D
  pub order_price_base : D
  pub order_value_base : D
  pub order_base_price : D
  pub final_cap : F
  pub final_amount : F
  pub is_anti_mev : ℕ
  pub gas_type : ℕ
  pub status : ℕ
  pub fail_reason : String
  pub final_price_base : F
  pub final_value_base : F
  pub final_base_price : F
  pub gas_fee : F
  pub priority_fee : F
  pub dex_fee : F
  pub server_fee : F
  pub jito_fee : F
  pub tx_hash : String
  pub dex_name : String
  pub pair_ca : String
  pub drawdown_price : F
  pub trailing_percent : ℕ

pub record CreateMarketTx : Type 0 where
  pub user_id : ℕ  -- uint64
  pub chain_id : ℕ  -- uint64
  pub user_wallet_id : ℕ  -- uint32
  pub user_wallet_address : String
  pub amount_in : String
  pub is_anti_mev : Bool
  pub is_auto_slippage : Bool
  pub slippage : ℕ  -- uint32
  pub gas_type : ℕ  -- int32, by its bit pattern
  pub trade_pool_name : String
  pub in_decimal : ℕ  -- uint8
  pub out_decimal : ℕ  -- uint8
  pub in_token_ca : String
  pub out_token_ca : String
  pub pair_addr : String
  pub price : String
  pub use_price_limit : Bool
  pub in_token_program : String
  pub out_token_program : String

-- The fields of the market service's answer that the order flow reads.
pub record PairInfo (F : Type 0) : Type 0 where
  pub address : String
  pub name : String
  pub base_token_address : String
  pub token_address : String
  pub base_token_decimal : ℕ
  pub token_decimal : ℕ
  pub fdv : F
  pub token_price : F
  pub base_token_price : F

-- trade.CreateMarketOrderRequest
pub record Request : Type 0 where
  pub chain_id : ℕ
  pub token_ca : String
  pub swap_type : ℕ
  pub amount_in : String
  pub double_out : Bool
  pub is_one_click : Bool
  pub user_wallet_address : String

abbrev pub type_market : ℕ
type_market = 1

abbrev pub type_limit : ℕ
type_limit = 2

abbrev pub type_one_click : ℕ
type_one_click = 3

abbrev pub status_proc : ℕ
status_proc = 2

abbrev pub status_on_chain : ℕ
status_on_chain = 3

abbrev pub status_fail : ℕ
status_fail = 4

abbrev pub swap_sell : ℕ
swap_sell = 2

abbrev pub sol_chain_id : ℕ
sol_chain_id = 100000

abbrev pub request_err : Error
request_err = Error.code 400

abbrev pub server_err : Error
server_err = Error.code 500

abbrev pub balance_not_enough : Error
balance_not_enough = Error.code 6000

abbrev pub token_account_frozen : Error
token_account_frozen = Error.code 6005

abbrev pub amount_err : Error
amount_err = Error.code 6007

abbrev pub slippage_limit : Error
slippage_limit = Error.code 6009

abbrev pub pump_pool_zero_err : Error
pump_pool_zero_err = Error.code 6010

abbrev pub pool_liquidity_not_enough : Error
pool_liquidity_not_enough = Error.code 6022

abbrev pub pump_fun : String
pump_fun = "PumpFun"

abbrev pub raydium_v4 : String
raydium_v4 = "RaydiumV4"

abbrev pub raydium_clmm : String
raydium_clmm = "RaydiumClmm"

abbrev pub raydium_cpmm : String
raydium_cpmm = "RaydiumCpmm"

-- `errors.Is(err, xcode.SlippageLimit)`: the codes are compared as values.
abbrev pub is_slippage_limit : Error → Bool
is_slippage_limit (Error.code n) = n == 6009
is_slippage_limit (Error.other _) = false
