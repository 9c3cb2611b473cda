-- ===== src/Order/Flow.antt =====
-- createmarketorderlogic.go: `CreateMarketOrder`, `CreateMarketTx` and the last part of
-- `createMarketTxWithPairInfo`. `none` is a panic. A pair (hash, error) of Go is a result: the hash
-- does not matter beside an error.
pub mod Settled
pub mod Whole
pub mod Lost
use Prim.Native.String.{len, ◌++◌ as ◌<>◌}
use greet.Base.{
  ℕ, ◌==◌, ltb, String, Bool, true, false, ◌&&◌, ◌||◌, if◌then◌else◌, Option, none, some, and_then,
  Error, error_text, Result, ok, err, ◌>>=◌, go_on, require, Floats, Decimals,
}
use greet.Order.Types.{
  TradeOrder, CreateMarketTx, PairInfo, Request, type_market, type_one_click, status_proc,
  swap_sell, sol_chain_id, amount_err, server_err,
}
use greet.Order.Store.{Store, insert_with_log}
use greet.Order.Params.{Chain, build_param}
use greet.Order.Retry.{RetryState, send_with_retry}
use greet.Order.Status.{Updated, update_db_by_tx_result}

-- The market service (`none`: the answer is nil).
pub record Market (F : Type 0) : Type 0 where
  pub pair_info_by_token : ℕ → String → Result (Option (PairInfo F))
  pub native_token_price : ℕ → Result F

-- The decimals that are made of the floats of a pair.
pub record PairDecimals (D : Type 0) : Type 0 where
  pub cap : D
  pub base : D
  pub token : D

-- The order in memory, the tables, and what the call returns.
pub record Sent (F D S : Type 0) : Type 0 where
  pub order : TradeOrder F D
  pub tables : S
  pub result : Result String

abbrev pub hash_of : Result String → String
hash_of (ok h) = h
hash_of (err _) = ""

abbrev pub error_of : Result String → Option Error
error_of (ok _) = none
error_of (err e) = some e

-- `return "", err` where the update failed and `err` is the error of the attempts.
abbrev pub without_hash : Result String → Result String
without_hash (ok _) = ok ""
without_hash (err e) = err e

abbrev pub after_update : Option Error → Result String → Result String
after_update none r = r
after_update (some _) r = without_hash r

-- The response is empty.
abbrev pub no_hash : Result String → Result (Unit {0})
no_hash (ok _) = ok tt
no_hash (err e) = err e

abbrev pub bool_to_int64 : Bool → ℕ
bool_to_int64 true = 1
bool_to_int64 false = 0

module _ (f : Floats) (d : Decimals f.F) (db : Store f.F d.D) (m : Market f.F) (c : Chain) where
  open f use {F}
  open d use {D}
  open db use {S}

  -- The end of `createMarketTxWithPairInfo`: a result of more than 100 bytes is an unsigned
  -- transaction, which is returned with the tables left alone.
  record_result : TradeOrder F D → CreateMarketTx → Result String → S → Option (Sent F D S)
  record_result o param result s =
      if ltb 100 (len (hash_of result))
      then some (record { order = o; tables = s; result = result })
      else and_then (update_db_by_tx_result db o (some param) (hash_of result) (error_of result) s)
          λ u.
            some
              (record { order = u.order; tables = u.tables; result = after_update u.failed result })

  create_market_tx_with_pair_info : TradeOrder F D → PairInfo F → S → Option (Sent F D S)
  unfolding record_result
  create_market_tx_with_pair_info o pair s =
      and_then (send_with_retry c (build_param d c o pair))
        (λ r. record_result o r.param r.result s)

  -- The deferred function of `CreateMarketTx`; the update's own error is logged and dropped.
  abbrev pub fail_order : TradeOrder F D → S → Error → Option (Sent F D S)
  fail_order o s e =
      and_then (update_db_by_tx_result db o none "" (some e) s)
        λ u. some (record { order = u.order; tables = u.tables; result = err e })

  deferred : TradeOrder F D → S → Result String → Option (Sent F D S)
  deferred o s (ok h) = some (record { order = o; tables = s; result = ok h })
  deferred o s (err e) =
      if o.status == status_proc
      then fail_order o s e
      else some (record { order = o; tables = s; result = err e })

  -- With the market's answer, where the caller has no pair. A nil answer is read through.
  with_fetched : TradeOrder F D → Result (Option (PairInfo F)) → S → Option (Sent F D S)
  with_fetched o (err e) s = some (record { order = o; tables = s; result = err e })
  with_fetched o (ok none) s = none
  with_fetched o (ok (some pair)) s = create_market_tx_with_pair_info o pair s

  send_order : TradeOrder F D → Option (PairInfo F) → S → Option (Sent F D S)
  unfolding with_fetched
  send_order o (some pair) s = create_market_tx_with_pair_info o pair s
  send_order o none s = with_fetched o (m.pair_info_by_token o.chain_id o.token_ca) s

  unfoldable pub create_market_tx : TradeOrder F D → Option (PairInfo F) → S → Option (Sent F D S)
  unfolding send_order deferred create_market_tx_with_pair_info
  create_market_tx o pair s =
      and_then (send_order o pair s) (λ r. deferred r.order r.tables r.result)

  -- `decimal.NewFromFloat`
  abbrev pub from_float : F → Option D
  from_float x = if d.is_number x then some (d.of_float x) else none

  -- The decimals of a pair.
  abbrev pub pair_decimals : PairInfo F → Option (PairDecimals D)
  pair_decimals pair = and_then (from_float pair.fdv) λ cap.
      and_then (from_float pair.base_token_price) λ base.
        and_then (from_float pair.token_price)
          λ token. some (record { cap = cap; base = base; token = token })

  abbrev pub no_current_price : Request → Error
  no_current_price req = Error.other (
      "invalid base token price (zero) for token " <> req.token_ca
      <> " and unable to fetch current price")

  -- The base token's price in USD, fetched anew where the pair has none.
  unfoldable pub base_price : Request → D → Option (Result D)
  base_price req base =
      if d.is_zero base
      then (if req.chain_id == sol_chain_id
          then (elim (m.native_token_price req.chain_id) [
            | ok p ↦
                if f.lt_f f.zero_f p
                then and_then (from_float p) (λ x. some (ok x))
                else some (err (no_current_price req))
            | err e ↦ some (err (no_current_price req))
          ])
          else some
              (err (Error.other ("invalid base token price (zero) for token " <> req.token_ca))))
      else some (ok base)

  unfoldable pub new_order : Request → D → PairInfo F → PairDecimals D → D → TradeOrder F D
  new_order req amount pair ds base_token_price =
      let token_price = d.div_d ds.token base_token_price in
      record {
        id = 0;
        uid = 0;
        trade_type = if req.is_one_click then type_one_click else type_market;
        chain_id = req.chain_id;
        token_ca = req.token_ca;
        swap_type = req.swap_type;
        wallet_index = 0;
        wallet_address = req.user_wallet_address;
        is_auto_slippage = 0;
        slippage = 5000;
        double_out = bool_to_int64 req.double_out;
        order_cap = ds.cap;
        order_amount = amount;
        order_price_base = token_price;
        order_value_base =
            if req.swap_type == swap_sell then d.mul_d amount token_price else amount;
        order_base_price = base_token_price;
        final_cap = f.zero_f;
        final_amount = f.zero_f;
        is_anti_mev = 0;
        gas_type = 1;
        status = status_proc;
        fail_reason = "";
        final_price_base = f.zero_f;
        final_value_base = f.zero_f;
        final_base_price = f.zero_f;
        gas_fee = f.zero_f;
        priority_fee = f.zero_f;
        dex_fee = f.zero_f;
        server_fee = f.zero_f;
        jito_fee = f.zero_f;
        tx_hash = "";
        dex_name = pair.name;
        pair_ca = pair.address;
        drawdown_price = f.zero_f;
        trailing_percent = 0;
      }

  -- The amount, which is a positive number.
  unfoldable pub positive_amount : Request → Result D
  positive_amount req = do
    amount ← d.of_string req.amount_in
    require (d.is_positive amount) amount_err amount

  -- The pair that the market has for the token.
  unfoldable pub found_pair : Request → Result (PairInfo F)
  found_pair req = elim (m.pair_info_by_token req.chain_id req.token_ca) [
    | err e ↦ err (Error.other ("err is " <> error_text e))
    | ok none ↦ err (Error.other ("pair info is nil for token " <> req.token_ca))
    | ok (some pair) ↦ ok pair
  ]

  -- The order of a request that has an amount and a pair.
  abbrev pub accept_priced :
      Request → D → PairInfo F → PairDecimals D → Option (Result (TradeOrder F D × PairInfo F))
  unfolding base_price
  accept_priced req amount pair ds =
      and_then (base_price req ds.base)
        λ r. some (r >>= λ price. ok (new_order req amount pair ds price, pair))

  -- The checks of a request, in order: what they find is the order to insert and its pair.
  unfoldable pub accept : Request → Option (Result (TradeOrder F D × PairInfo F))
  unfolding positive_amount found_pair accept_priced
  accept req = go_on (positive_amount req) λ amount.
      go_on (found_pair req) λ pair. and_then (pair_decimals pair) (accept_priced req amount pair)

  inserted : PairInfo F → S → Option (TradeOrder F D × S) → Option (S × Result (Unit {0}))
  inserted pair s none = some (s, err server_err)
  inserted pair s (some (o, s')) =
      and_then (create_market_tx o (some pair) s') (λ r. some (r.tables, no_hash r.result))

  insert_and_send : S → Result (TradeOrder F D × PairInfo F) → Option (S × Result (Unit {0}))
  unfolding inserted
  insert_and_send s (err e) = some (s, err e)
  insert_and_send s (ok (o, pair)) = inserted pair s (insert_with_log db o s)

  unfoldable pub create_market_order : Request → S → Option (S × Result (Unit {0}))
  unfolding insert_and_send
  create_market_order req s = and_then (accept req) (insert_and_send s)
