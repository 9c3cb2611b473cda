-- ===== src/Pairs/Save.antt =====
-- block/db.go: `UpdatePairDBPoint` and `SavePair`.
pub mod Rows
pub mod Slots
use Prim.Native.String.{◌++◌ as ◌<>◌}
use greet.Base.{
  ℕ, ltb, String, Bool, true, false, ◌&&◌, ◌||◌, if◌then◌else◌, str_eq, Option, none, some, Error,
  error_text, Result, ok, err, Floats, Decimals,
}
use greet.Base.Text.{contains}
use greet.Order.Types.{pump_fun, sol_chain_id}
use greet.Pairs.Types.{Pair, TradeWithPair, PairRow, Token}
use greet.Pairs.Store.{Found, PairStore}

-- The trade after the call, the table, and what the call returns; a row beside an error does not
-- matter.
pub record Saved (F S : Type 0) : Type 0 where
  pub trade : TradeWithPair F
  pub table : S
  pub result : Result (PairRow F)

abbrev pub int_of_bool : Bool → ℕ
int_of_bool true = 1
int_of_bool false = 0

-- `fmt.Errorf("…: %w", err)`
abbrev pub wrapped : String → Error → Error
wrapped what e = Error.other (what <> error_text e)

module _ (f : Floats) where
  open f use {F}

  abbrev pub positive_f : F → Bool
  positive_f x = f.lt_f f.zero_f x

  abbrev pub is_zero_f : F → Bool
  is_zero_f x = f.eq_f x f.zero_f

  -- `tokenTotalSupply` and `tokenSymbol`
  abbrev pub supply_of : Option (Token F) → F
  supply_of none = f.zero_f
  supply_of (some t) = t.total_supply

  abbrev pub symbol_of : TradeWithPair F → Option (Token F) → String
  symbol_of trade none = trade.pair_info.token_symbol
  symbol_of trade (some t) = t.symbol

  -- `liq`
  abbrev pub liquidity_of : TradeWithPair F → F
  liquidity_of trade =
      if str_eq trade.swap_name pump_fun
      then f.mul_f (f.mul_f trade.current_base_token_in_pool_amount trade.base_token_price_usd)
          f.two_f
      else f.add_f (f.mul_f trade.current_base_token_in_pool_amount trade.base_token_price_usd)
          (f.mul_f trade.current_token_in_pool_amount trade.token_price_usd)

  -- Takes the initial amounts of the trade where both are positive.
  abbrev pub take_init : TradeWithPair F → PairRow F → PairRow F
  take_init trade r =
      if positive_f trade.pair_info.init_base_token_amount
        && positive_f trade.pair_info.init_token_amount
      then record r {
        init_base_token_amount = trade.pair_info.init_base_token_amount;
        init_token_amount = trade.pair_info.init_token_amount;
      }
      else r

  -- … and only where the row has none.
  abbrev pub fill_init : TradeWithPair F → PairRow F → PairRow F
  fill_init trade r =
      if is_zero_f r.init_base_token_amount || is_zero_f r.init_token_amount
      then take_init trade r
      else r

  -- The row of a pair that the table does not have; its id is given by the table.
  unfoldable pub new_pair : TradeWithPair F → Option (Token F) → PairRow F
  new_pair trade token = take_init trade (record {
    id = 0;
    chain_id = sol_chain_id;
    address = trade.pair_addr;
    name = "PumpFun";
    factory_address = "";
    base_token_address = trade.pair_info.base_token_addr;
    token_address = trade.pair_info.token_addr;
    base_token_symbol = "SOL";
    token_symbol = symbol_of trade token;
    base_token_decimal = trade.pair_info.base_token_decimal;
    token_decimal = trade.pair_info.token_decimal;
    base_token_is_native_token = int_of_bool trade.pair_info.base_token_is_native_token;
    base_token_is_token0 = int_of_bool trade.pair_info.base_token_is_token0;
    init_base_token_amount = f.zero_f;
    init_token_amount = f.zero_f;
    current_base_token_amount = trade.current_base_token_in_pool_amount;
    current_token_amount = trade.current_token_in_pool_amount;
    fdv = f.mul_f (supply_of token) trade.token_price_usd;
    mkt_cap = f.mul_f (supply_of token) trade.token_price_usd;
    liquidity = liquidity_of trade;
    token_price = trade.token_price_usd;
    base_token_price = trade.base_token_price_usd;
    block_num = trade.pair_info.block_num;
    block_time = trade.pair_info.block_time;
    highest_token_price = f.zero_f;
    latest_trade_time = trade.pair_info.block_time;
    pump_point = trade.pump_point;
    pump_launched = int_of_bool trade.pump_launched;
    pump_market_cap = trade.pump_market_cap;
    pump_owner = trade.pump_owner;
    pump_swap_pair_addr = trade.pump_swap_pair_addr;
    pump_virtual_base_token_reserves = trade.pump_virtual_base_token_reserves;
    pump_virtual_token_reserves = trade.pump_virtual_token_reserves;
    pump_status = trade.pump_status;
    pump_pair_addr = trade.pump_pair_addr;
    slot = trade.slot;
  })

  -- `trade.Mcap`, `trade.Fdv`
  abbrev pub with_caps : PairRow F → TradeWithPair F → TradeWithPair F
  with_caps r trade = record trade { mcap = r.mkt_cap; fdv = r.fdv }

module _ (f : Floats) (d : Decimals f.F) where
  open f use {F}

  abbrev product : F → F → F
  product a b = d.to_float (d.mul_d (d.of_float a) (d.of_float b))

  abbrev pool_value : TradeWithPair F → PairRow F → F
  pool_value trade r =
      if str_eq r.name pump_fun
      then d.to_float (
          d.mul_d
            (d.mul_d (d.of_float trade.base_token_price_usd)
              (d.of_float r.current_base_token_amount))
            (d.of_float f.two_f))
      else d.to_float (
          d.add_d (d.mul_d (d.of_float trade.token_price_usd) (d.of_float r.current_token_amount)) (
            d.mul_d (d.of_float trade.base_token_price_usd)
              (d.of_float r.current_base_token_amount)))

  -- The row's current amounts, which change only together.
  abbrev pub with_amounts : TradeWithPair F → PairRow F → PairRow F
  with_amounts trade r =
      if positive_f f trade.current_base_token_in_pool_amount
        && positive_f f trade.current_token_in_pool_amount
      then record r {
        current_base_token_amount = trade.current_base_token_in_pool_amount;
        current_token_amount = trade.current_token_in_pool_amount;
      }
      else r

  -- The trade's columns of the row.
  unfoldable pub with_trade : TradeWithPair F → F → PairRow F → PairRow F
  with_trade trade supply r = record r {
    pump_point = trade.pump_point;
    pump_status = trade.pump_status;
    pump_virtual_base_token_reserves = trade.pump_virtual_base_token_reserves;
    pump_virtual_token_reserves = trade.pump_virtual_token_reserves;
    token_price =
        if positive_f f trade.token_price_usd then trade.token_price_usd else r.token_price;
    base_token_price = trade.base_token_price_usd;
    fdv = if positive_f f supply then product trade.token_price_usd supply else r.fdv;
    mkt_cap = if positive_f f supply then product trade.token_price_usd supply else r.mkt_cap;
    latest_trade_time = trade.block_time;
  }

  abbrev pub with_liquidity : TradeWithPair F → PairRow F → PairRow F
  with_liquidity trade r = record r { liquidity = pool_value trade r }

  -- It returns no error in any case, so the result is the row.
  unfoldable pub update_pair_db_point : TradeWithPair F → PairRow F → F → PairRow F
  update_pair_db_point trade row supply =
      with_liquidity trade (with_amounts trade (with_trade trade supply (fill_init f trade row)))

  -- The columns that `SavePair` itself sets.
  unfoldable pub renamed : TradeWithPair F → Option (Token F) → PairRow F → PairRow F
  renamed trade token r = record r {
    name = "PumpFun";
    token_symbol = symbol_of f trade token;
    slot = trade.slot;
    liquidity = liquidity_of f trade;
    block_num = trade.pair_info.block_num;
  }

  -- The row that a newer trade makes of the row in the table.
  unfoldable pub updated_pair : TradeWithPair F → Option (Token F) → PairRow F → PairRow F
  updated_pair trade token r =
      update_pair_db_point trade (renamed trade token (fill_init f trade r)) (supply_of f token)

module _ (f : Floats) (d : Decimals f.F) (db : PairStore f.F) where
  open f use {F}
  open db use {S}

  -- After a `Duplicate entry`: the row that another writer inserted is searched again.
  abbrev pub again : TradeWithPair F → S → Found F → Saved F S
  again trade s (Found.found r) = record { trade = trade; table = s; result = ok r }
  again trade s Found.missing = record {
    trade = trade;
    table = s;
    result = err (Error.other "record not found");
  }
  again trade s (Found.failed e) = record { trade = trade; table = s; result = err e }

  -- The answer to the insertion of r. The row is as new as the trade, so nothing is left to update.
  unfoldable pub inserted : TradeWithPair F → PairRow F → S → Result (ℕ × S) → Saved F S
  inserted trade r s (ok (i, s')) = record {
    trade = with_caps f r trade;
    table = s';
    result = ok (record r { id = i });
  }
  inserted trade r s (err e) =
      if contains (error_text e) "Duplicate entry"
      then again (with_caps f r trade) s (db.find_again sol_chain_id trade.pair_addr s)
      else record {
        trade = with_caps f r trade;
        table = s;
        result = err (wrapped "PairModel.Insert err:" e);
      }

  -- The answer to the update to r.
  unfoldable pub stored : TradeWithPair F → PairRow F → S → Result S → Saved F S
  stored trade r s (ok s') = record { trade = with_caps f r trade; table = s'; result = ok r }
  stored trade r s (err e) = record {
    trade = with_caps f r trade;
    table = s;
    result = err (wrapped "PairModel.Update err:" e);
  }

  -- `SavePair` after its search.
  unfoldable pub save_found : TradeWithPair F → Option (Token F) → Found F → S → Saved F S
  unfolding inserted new_pair stored updated_pair
  save_found trade token (Found.found r) s =
      if ltb r.slot trade.slot
      then (let r' = updated_pair f d trade token r in stored trade r' s (db.update r' s))
      else record { trade = with_caps f r trade; table = s; result = ok r }
  save_found trade token Found.missing s =
      let r = new_pair f trade token in inserted trade r s (db.insert r s)
  save_found trade token (Found.failed e) s = record {
    trade = trade;
    table = s;
    result = err (wrapped "PairModel.FindOneByChainIdAddress err:" e);
  }

  unfoldable pub save_pair : TradeWithPair F → Option (Token F) → S → Saved F S
  unfolding save_found
  save_pair trade token s = save_found trade token (db.find sol_chain_id trade.pair_addr s) s
