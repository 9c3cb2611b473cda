-- ===== src/Tests/OrderTests.antt =====
-- Runs of the order flow, and its theorems at them.
use greet.Base.{
  ℕ, zero, suc, ◌≡◌, refl, ◌⊎◌, String, true, false, ◌==◌, if◌then◌else◌, none, some, and_then,
  Error, Result, ok, err,
}
use greet.Order.Types.{CreateMarketTx, PairInfo, Request}
use greet.Order.Store.{update_order_by_select}
use greet.Order.Params.{Chain, build_param, create_and_send_tx, convert_swap_err}
use greet.Order.Retry.{send_with_retry, retry_test}
use greet.Order.Retry.Attempts.{
  ended, param_of, attempt, last_attempt, send_with_retry-last_attempt,
}
use greet.Order.Status.{Updated, update_db_by_tx_result, write, sent_order, sent_columns}
use greet.Order.Status.Sync.{GoodUpdate, update_db_by_tx_result-GoodUpdate}
use greet.Order.Flow.{
  Market, Sent, PairDecimals, create_market_tx, create_market_order, new_order, accept,
}
use greet.Order.Flow.Settled.{Settled, create_market_tx-Settled}
use greet.Order.Flow.Whole.{Rejected, NotInserted, Processed, create_market_order-ends}
use greet.Order.Flow.Lost.{accept_sends_once}
use greet.Tests.Concrete.{floats, decimals, Order, Tables, store, put_row}

abbrev pair : PairInfo ℕ
pair = record {
  address = "pair";
  name = "PumpFun";
  base_token_address = "sol";
  token_address = "tok";
  base_token_decimal = 9;
  token_decimal = 6;
  fdv = 100;
  token_price = 40;
  base_token_price = 2;
}

abbrev market : Market ℕ
market = record {
  pair_info_by_token = λ chain ca. ok (some pair);
  native_token_price = λ chain. ok 7;
}

-- The first two attempts fail by the slippage, the third is sent.
abbrev answers : ℕ → Result String
answers n = elim n [
  | zero ↦ ok ""
  | suc zero ↦ err (Error.other "custom program error: slippage")
  | suc (suc zero) ↦ err (Error.other "TooLittleOutputReceived")
  | suc (suc (suc k)) ↦ ok "hash"
]

abbrev pub chain : Chain
chain = record {
  token_program_id = "Token";
  has_tx_manager = true;
  build_unsigned = λ n p. some (ok "unsigned");
  sign_and_send = λ n u w. some (answers n);
}

abbrev sender : Chain
sender = record chain { sign_and_send = λ n u w. some (ok "hash") }

abbrev pub request : Request
request = record {
  chain_id = 100000;
  token_ca = "tok";
  swap_type = 2;
  amount_in = "3";
  double_out = false;
  is_one_click = false;
  user_wallet_address = "wallet";
}

abbrev pub decimals_of_pair : PairDecimals ℕ
decimals_of_pair = record { cap = pair.fdv; base = pair.base_token_price; token = pair.token_price }

abbrev order : Order
order = new_order floats decimals (store true) market chain request 3 pair decimals_of_pair 2

abbrev automatic : CreateMarketTx
automatic = record (build_param decimals chain order pair) { is_auto_slippage = true }

three_tries : send_with_retry chain automatic ≡ some (ended automatic 3 (ok "hash"))
unfolding send_with_retry create_and_send_tx convert_swap_err build_param new_order
three_tries = refl

raised : (param_of automatic 3).slippage ≡ 7000
raised = refl

-- A manager that panics in the second attempt.
abbrev broken : Chain
broken = record chain { sign_and_send = λ n u w. if n == 2 then none else some (answers n) }

second_panics : send_with_retry broken automatic ≡ none
unfolding send_with_retry create_and_send_tx convert_swap_err build_param new_order
second_panics = refl

send_with_retry-last_attempt_example :
    let k = last_attempt chain automatic in
    (send_with_retry chain automatic
      ≡ and_then (attempt chain automatic k) (λ r. some (ended automatic k r)))
    × ((r : Result String)
        → attempt chain automatic k ≡ some r
        → retry_test (ended automatic k r) ≡ false)
send_with_retry-last_attempt_example = send_with_retry-last_attempt chain automatic

abbrev empty : Tables
empty = record { next_id = 7; rows = λ i. none; logs = λ i st. none }

abbrev tables : Tables
tables = put_row 0 order empty

abbrev sent_update : Updated ℕ ℕ Tables
sent_update =
    write (store true) (sent_order order automatic "hash") (sent_columns order automatic) tables

update_db_by_tx_result-GoodUpdate_example :
    GoodUpdate (store true) order none "hash" tables sent_update
unfolding update_db_by_tx_result new_order
update_db_by_tx_result-GoodUpdate_example =
    update_db_by_tx_result-GoodUpdate (store true) order (some automatic) "hash" none tables refl
      refl

abbrev sent : Sent ℕ ℕ Tables
sent = record {
  order = sent_order order (build_param decimals sender order pair) "hash";
  tables =
      (write (store true) (sent_order order (build_param decimals sender order pair) "hash")
        (sent_columns order (build_param decimals sender order pair)) tables).tables;
  result = ok "hash";
}

create_market_tx-Settled_example :
    Settled floats decimals (store true) market sender order tables sent
unfolding create_market_tx update_db_by_tx_result update_order_by_select new_order send_with_retry
    create_and_send_tx build_param
create_market_tx-Settled_example =
    create_market_tx-Settled floats decimals (store true) market sender order (some pair) tables
      refl refl refl

create_market_order-ends_example :
    (s' : Tables) × (r : Result (Unit {0})) × (create_market_order floats decimals
        (store true)
        market
        chain
        request
        empty
      ≡ some (s', r))
    × (Rejected floats decimals (store true) market chain request empty s' r
        ⊎ NotInserted floats decimals (store true) market chain request empty s' r
        ⊎ Processed floats decimals (store true) market chain request empty s' r)
create_market_order-ends_example =
    create_market_order-ends floats decimals (store true) market chain request empty
      ((λ pair found. (refl, refl, refl)), (λ p known. refl))
      ((λ n p. (ok "unsigned", refl)), (λ n u w. (answers n, refl)))

accept_sends_once_example :
    let p = build_param decimals chain (record order { id = 7 }) pair in
    send_with_retry chain p ≡ and_then (attempt chain p 1) (λ r. some (ended p 1 r))
unfolding accept
accept_sends_once_example =
    accept_sends_once floats decimals (store true) market chain request 7 refl
