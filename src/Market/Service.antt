-- ===== src/Market/Service.antt =====
-- market/internal/logic: `GetPairInfoByToken` and `GetNativeTokenPrice`, with the query of
-- model/solmodel/trademodel.go, and what the order flow sees of them.
pub mod Orders
use Prim.Native.String.{◌++◌ as ◌<>◌}
use greet.Base.{
  ℕ, ◌==◌, ltb, String, str_eq, Bool, false, ◌&&◌, if◌then◌else◌, List, [], ◌∷◌, filter, Option,
  none, some, Error, Result, ok, err, Floats,
}
use greet.Base.Text.{itoa}
use greet.Order.Types.{PairInfo, sol_chain_id}
use greet.Order.Flow.{Market}
use greet.Pairs.Types.{PairRow}
use greet.Market.Lookup.{Category, noting_found_error, no_pair, find_one_by_chain_id_token_address}

-- market.GetPairInfoByTokenResponse
pub record PairInfoResponse (F : Type 0) : Type 0 where
  pub chain_id : ℕ
  pub address : String
  pub name : String
  pub factory_address : String
  pub base_token_address : String
  pub token_address : String
  pub base_token_symbol : String
  pub token_symbol : String
  pub base_token_decimal : ℕ
  pub token_decimal : ℕ
  pub base_token_is_native_token : Bool
  pub base_token_is_token0 : Bool
  pub init_base_token_amount : F
  pub init_token_amount : F
  pub current_base_token_amount : F
  pub current_token_amount : F
  pub fdv : F
  pub mkt_cap : F
  pub base_token_price : F
  pub token_price : F
  pub block_num : ℕ
  pub block_time : ℕ
  pub highest_token_price : F
  pub latest_trade_time : ℕ

-- A time as the code reads it, with its Unix seconds.
pub record Time : Type 0 where
  pub year : ℕ
  pub month : ℕ
  pub day : ℕ
  pub unix : ℕ

-- The columns of a row of a trade table (`solmodel.Trade`) that are read.
pub record TradeRow (F : Type 0) : Type 0 where
  pub chain_id : ℕ
  pub block_time : ℕ
  pub base_token_price_usd : F

abbrev pub is_not_found : Error → Bool
is_not_found (Error.code n) = n == 520
is_not_found (Error.other s) = false

module _ {F : Type 0} where
  abbrev pub response_of : ℕ → PairRow F → PairInfoResponse F
  response_of chain_id p = record {
    chain_id = chain_id;
    address = p.address;
    name = p.name;
    factory_address = p.factory_address;
    base_token_address = p.base_token_address;
    token_address = p.token_address;
    base_token_symbol = p.base_token_symbol;
    token_symbol = p.token_symbol;
    base_token_decimal = p.base_token_decimal;
    token_decimal = p.token_decimal;
    base_token_is_native_token = p.base_token_is_native_token == 1;
    base_token_is_token0 = p.base_token_is_token0 == 1;
    init_base_token_amount = p.init_base_token_amount;
    init_token_amount = p.init_token_amount;
    current_base_token_amount = p.current_base_token_amount;
    current_token_amount = p.current_token_amount;
    fdv = p.fdv;
    mkt_cap = p.mkt_cap;
    base_token_price = p.base_token_price;
    token_price = p.token_price;
    block_num = p.block_num;
    block_time = p.block_time;
    highest_token_price = p.highest_token_price;
    latest_trade_time = p.latest_trade_time;
  }

  -- A pair with no address is none.
  abbrev pub with_pair : ℕ → String → PairRow F → Result (PairInfoResponse F)
  with_pair chain_id token_address p =
      if str_eq p.address ""
      then err (Error.other ("pairInfo is nil for token: " <> token_address))
      else ok (response_of chain_id p)

  abbrev pub after_query : ℕ → String → Result (PairRow F) → Result (PairInfoResponse F)
  after_query chain_id token_address (ok p) = with_pair chain_id token_address p
  after_query chain_id token_address (err e) =
      if is_not_found e
      then err (
          Error.other
            ("pair not found for token: " <> token_address <> " on chain: " <> itoa chain_id))
      else err e

  -- `block_time ASC`
  abbrev pub earlier : TradeRow F → Option (TradeRow F) → TradeRow F
  earlier t none = t
  earlier t (some u) = if ltb u.block_time t.block_time then u else t

  abbrev pub first_trade : List (TradeRow F) → Option (TradeRow F)
  first_trade [] = none
  first_trade (t ∷ ts) = some (earlier t (first_trade ts))

  -- `chain_id = ? AND block_time > ?`
  abbrev pub is_after : ℕ → Time → TradeRow F → Bool
  is_after chain_id time t = t.chain_id == chain_id && ltb time.unix t.block_time

  abbrev pub price_of_first : Option (TradeRow F) → Result F
  price_of_first none = err (Error.other "record not found")
  price_of_first (some t) = ok t.base_token_price_usd

  abbrev pub price_in_shard : ℕ → Time → Result (List (TradeRow F)) → Result F
  price_in_shard chain_id time (err e) = err e
  price_in_shard chain_id time (ok trades) =
      price_of_first (first_trade (filter (is_after chain_id time) trades))

  abbrev pub as_pair_info : PairInfoResponse F → PairInfo F
  as_pair_info r = record {
    address = r.address;
    name = r.name;
    base_token_address = r.base_token_address;
    token_address = r.token_address;
    base_token_decimal = r.base_token_decimal;
    token_decimal = r.token_decimal;
    fdv = r.fdv;
    token_price = r.token_price;
    base_token_price = r.base_token_price;
  }

-- `%02d`
abbrev pub two_digits : ℕ → String
two_digits n = if ltb n 10 then "0" <> itoa n else itoa n

-- `getShardTableNameByTime`
unfoldable pub get_shard_table_name_by_time : String → Time → String
get_shard_table_name_by_time base t =
    base <> "_" <> itoa t.year <> "_" <> two_digits t.month <> "_" <> two_digits t.day

-- The database, `time.Parse`, and what a client of gRPC gets of an error and of a nil answer.
pub record MarketServer (f : Floats) : Type 0 where
  pub in_order : List (Category f.F) → List (Category f.F)
  pub pairs : Result (List (PairRow f.F))
  pub trades : String → Result (List (TradeRow f.F))
  pub parse_time : String → Result Time
  pub received_error : Error → Error
  pub received_nil : Result f.F

module _ (f : Floats) (sv : MarketServer f) where
  open f use {F}

  -- `GetPairInfoByToken`
  unfoldable pub get_pair_info_by_token : ℕ → String → Result (PairInfoResponse F)
  unfolding find_one_by_chain_id_token_address
  get_pair_info_by_token chain_id token_address =
      if chain_id == sol_chain_id
      then after_query chain_id token_address
          (find_one_by_chain_id_token_address f sv.in_order chain_id token_address sv.pairs)
      else with_pair chain_id token_address (no_pair f)

  -- `GetNativeTokenPrice` of the model and of the service, which answers nil to a time that it
  -- cannot parse.
  abbrev pub price_after : ℕ → Time → Result F
  unfolding get_shard_table_name_by_time
  price_after chain_id time =
      price_in_shard chain_id time (sv.trades (get_shard_table_name_by_time "trade" time))

  abbrev pub price_since : ℕ → Result Time → Result (Option F)
  unfolding get_shard_table_name_by_time
  price_since chain_id (err e) = ok none
  price_since chain_id (ok time) = elim (price_after chain_id time) [
    | ok p ↦ ok (some p)
    | err e ↦ err e
  ]

  unfoldable pub get_native_token_price : ℕ → String → Result (Option F)
  unfolding get_shard_table_name_by_time
  get_native_token_price chain_id search_time = price_since chain_id (sv.parse_time search_time)

  -- What the order flow gets: its request for the price has no time.
  abbrev pub received_pair : Result (PairInfoResponse F) → Result (Option (PairInfo F))
  received_pair (ok r) = ok (some (as_pair_info r))
  received_pair (err e) = err (sv.received_error e)

  abbrev pub received_price : Result (Option F) → Result F
  received_price (ok (some p)) = ok p
  received_price (ok none) = sv.received_nil
  received_price (err e) = err (sv.received_error e)

  unfoldable pub market_of : Market F
  unfolding get_pair_info_by_token get_native_token_price
  market_of = record {
    pair_info_by_token =
        λ chain_id token_address. received_pair (get_pair_info_by_token chain_id token_address);
    native_token_price = λ chain_id. received_price (get_native_token_price chain_id "");
  }
