-- ===== src/Order/Flow/Lost.antt =====
-- Where the order flow does less than it says: the decimals of a pair that are read and dropped,
-- and a retry that no request can ask for.
use greet.Base.{ℕ, ap, and_then, ◌≡◌, ◌≢◌, ◌∙◌, some, ok, Floats, Decimals, arith}
use greet.Order.Types.{TradeOrder, PairInfo, Request, swap_sell}
use greet.Order.Store.{Store}
use greet.Order.Params.{Chain, build_param}
use greet.Order.Retry.{send_with_retry}
use greet.Order.Retry.Attempts.{attempt, ended, last_attempt_manual, send_with_retry-last_attempt}
use greet.Order.Flow.{Market, accept}
use greet.Order.Flow.Whole.{accept-Accepted, Accepted-proc}

module _ (f : Floats) (d : Decimals f.F) (db : Store f.F d.D) (m : Market f.F) (c : Chain) where
  open f use {F}
  open d use {D}
  open db use {S}

  -- The parameters of a sell are those of a buy with the two tokens exchanged, and neither depends
  -- on the decimals of the pair.
  pub build_param_sides :
      (o : TradeOrder F D) (pair : PairInfo F) (base_decimal token_decimal other : ℕ)
      → other ≢ swap_sell
      → let sell = build_param d c (record o { swap_type = swap_sell }) pair in
        let buy =
          build_param d c
            (record o { swap_type = other })
            (record pair { base_token_decimal = base_decimal; token_decimal = token_decimal }) in
        sell ≡ record buy { in_token_ca = buy.out_token_ca; out_token_ca = buy.in_token_ca }
  unfolding build_param
  build_param_sides o pair base_decimal token_decimal other h = ground arith

  -- An accepted request is sent once, with the parameters of its order, whatever the error of that
  -- attempt, because its slippage is not automatic.
  pub accept_sends_once :
      (req : Request) {o : TradeOrder F D} {pair : PairInfo F} (i : ℕ)
      → accept f d db m c req ≡ some (ok (o, pair))
      → let p = build_param d c (record o { id = i }) pair in
        send_with_retry c p ≡ and_then (attempt c p 1) (λ r. some (ended p 1 r))
  unfolding build_param
  accept_sends_once req {o} {pair} i h =
      let (proc, manual, slippage) =
        Accepted-proc f d db m c req o pair (accept-Accepted f d db m c req h) in
      let p = build_param d c (record o { id = i }) pair in
      (send_with_retry-last_attempt c p).0
      ∙ ap (λ k. and_then (attempt c p k) (λ r. some (ended p k r)))
          (last_attempt_manual c p (rw manual))
