-- ===== src/Order/Retry.antt =====
-- createmarketorderlogic.go: the retry loop of `createMarketTxWithPairInfo`, which sends again with
-- a larger slippage while the attempt fails by the slippage limit.
pub mod Attempts
use greet.Base.{
  ℕ, zero, suc, ◌+◌, String, Bool, true, false, ◌&&◌, ◌||◌, ◌==◌, ltb, if◌then◌else◌, Option, some,
  and_then, Error, Result, ok, err,
}
use greet.Order.Types.{CreateMarketTx, is_slippage_limit}
use greet.Order.Params.{Chain, create_and_send_tx, convert_swap_err}

-- The variables of the loop; `result` holds `txHash` and `err`.
pub record RetryState : Type 0 where
  pub tries : ℕ
  pub param : CreateMarketTx
  pub result : Result String

abbrev pub fails_by_slippage : Result String → Bool
fails_by_slippage (ok _) = false
fails_by_slippage (err e) = is_slippage_limit e

-- The condition of the `for`.
abbrev pub retry_test : RetryState → Bool
retry_test s =
    s.tries == 0 || (s.param.is_auto_slippage && (fails_by_slippage s.result && ltb s.tries 3))

-- The `switch tryTimes`.
abbrev pub raise_slippage : ℕ → CreateMarketTx → CreateMarketTx
raise_slippage tries p =
    if tries == 2
    then record p { slippage = 4500 }
    else if tries == 3
    then record p { slippage = 7000 }
    else p

abbrev pub converted : String → Result String → Result String
converted pool (ok h) = ok h
converted pool (err e) = err (convert_swap_err pool e)

-- The body of the `for`; `none` is a panic of the manager.
pub retry_step : Chain → RetryState → Option RetryState
retry_step c s =
    let tries = s.tries + 1 in
    let param = raise_slippage tries s.param in
    and_then (create_and_send_tx c tries param) λ r.
      some (record { tries = tries; param = param; result = converted param.trade_pool_name r })

retry_loop : ℕ → Chain → RetryState → Option RetryState
retry_loop zero c s = some s
retry_loop (suc fuel) c s = elim (retry_test s) [
  | true ↦ and_then (retry_step c s) (λ s'. retry_loop fuel c s')
  | false ↦ some s
]

abbrev pub retry_start : CreateMarketTx → RetryState
retry_start p = record { tries = 0; param = p; result = ok "" }

-- Three rounds are the most that the condition allows.
unfoldable pub send_with_retry : Chain → CreateMarketTx → Option RetryState
unfolding retry_loop retry_step
send_with_retry c p = retry_loop 3 c (retry_start p)
