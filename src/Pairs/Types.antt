-- ===== src/Pairs/Types.antt =====
-- The data of the consumer: `TradeWithPair` and `Pair` of block/types.go, the rows of the pair and
-- token tables (model/solmodel). Slots, block numbers and Unix seconds are not negative, so they
-- are naturals. Left out are the columns that the database sets (created_at, updated_at,
-- deleted_at) and the fields of a trade and columns of a token that no operation reads or writes.
use greet.Base.{ℕ, String, Bool}

pub record Pair (F : Type 0) : Type 0 where
  pub chain_id : String
  pub addr : String
  pub base_token_addr : String
  pub token_addr : String
  pub base_token_symbol : String
  pub token_symbol : String
  pub base_token_decimal : ℕ  -- uint8
  pub token_decimal : ℕ  -- uint8
  pub base_token_is_native_token : Bool
  pub base_token_is_token0 : Bool
  pub token_total_supply : F
  pub init_token_amount : F
  pub init_base_token_amount : F
  pub name : String
  pub block_num : ℕ
  pub block_time : ℕ
  pub current_base_token_amount : F
  pub current_token_amount : F

pub record TradeWithPair (F : Type 0) : Type 0 where
  pub slot : ℕ
  pub chain_id : String
  pub pair_addr : String
  pub tx_hash : String
  pub maker : String
  pub trade_type : String
  pub base_token_amount : F
  pub token_amount : F
  pub base_token_price_usd : F
  pub total_usd : F
  pub token_price_usd : F
  pub to : String
  pub block_time : ℕ
  pub swap_name : String
  pub current_token_in_pool_amount : F
  pub current_base_token_in_pool_amount : F
  pub fdv : F
  pub mcap : F
  pub pump_point : F
  pub pump_launched : Bool
  pub pump_market_cap : F
  pub pump_owner : String
  pub pump_swap_pair_addr : String
  pub pump_virtual_base_token_reserves : F
  pub pump_virtual_token_reserves : F
  pub pump_status : ℕ
  pub pump_pair_addr : String
  pub pair_info : Pair F

-- A row of the pair table (`solmodel.Pair`).
pub record PairRow (F : Type 0) : Type 0 where
  pub id : ℕ
  pub chain_id : ℕ
  pub address : String
  pub name : String
  pub factory_address : String
  pub base_token_address : String
  pub token_address : String
  pub base_token_symbol : String
  pub token_symbol : String
  pub base_token_decimal : ℕ
  pub token_decimal : ℕ
  pub base_token_is_native_token : ℕ
  pub base_token_is_token0 : ℕ
  pub init_base_token_amount : F
  pub init_token_amount : F
  pub current_base_token_amount : F
  pub current_token_amount : F
  pub fdv : F
  pub mkt_cap : F
  pub liquidity : F
  pub token_price : F
  pub base_token_price : F
  pub block_num : ℕ
  pub block_time : ℕ
  pub highest_token_price : F
  pub latest_trade_time : ℕ
  pub pump_point : F
  pub pump_launched : ℕ
  pub pump_market_cap : F
  pub pump_owner : String
  pub pump_swap_pair_addr : String
  pub pump_virtual_base_token_reserves : F
  pub pump_virtual_token_reserves : F
  pub pump_status : ℕ
  pub pump_pair_addr : String
  pub slot : ℕ

-- The columns of a token row (`solmodel.Token`) that the consumer reads or writes.
pub record Token (F : Type 0) : Type 0 where
  pub id : ℕ
  pub chain_id : ℕ
  pub address : String
  pub program : String
  pub name : String
  pub symbol : String
  pub decimals : ℕ
  pub total_supply : F
  pub icon : String
  pub description : String
  pub twitter_username : String
  pub website : String
  pub telegram : String
  pub is_can_add_token : ℕ
  pub is_ca_drop_owner : ℕ
  pub slot : ℕ

abbrev pub trade_type_sell : String
trade_type_sell = "sell"

abbrev pub trade_type_buy : String
trade_type_buy = "buy"
