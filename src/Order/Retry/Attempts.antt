-- ===== src/Order/Retry/Attempts.antt =====
-- What the retry loop does, against a description of its attempts one by one.
use greet.Base.{
  ℕ, ◌≡◌, refl, ap, ◌∙◌, inl, inr, String, Bool, false, ◌&&◌, ◌==◌, if◌then◌else◌, arith,
  Bool-cases, Option-cases, Option, none, some, and_then, Error, Result, Result-cases, err,
}
use greet.Order.Types.{CreateMarketTx, sol_chain_id, request_err}
use greet.Order.Params.{Chain, create_and_send_tx}
use greet.Order.Retry.{RetryState, fails_by_slippage, retry_test, converted, send_with_retry}

-- The parameters of attempt k: only the slippage changes, to 4500 and then to 7000.
abbrev pub param_of : CreateMarketTx → ℕ → CreateMarketTx
param_of p k =
    if k == 2
    then record p { slippage = 4500 }
    else if k == 3
    then record p { slippage = 7000 }
    else p

-- How attempt k ends, with its error converted; `none` is a panic.
abbrev pub attempt : Chain → CreateMarketTx → ℕ → Option (Result String)
attempt c p k =
    and_then (create_and_send_tx c k (param_of p k)) (λ r. some (converted p.trade_pool_name r))

abbrev pub slips : Option (Result String) → Bool
slips none = false
slips (some r) = fails_by_slippage r

-- The number of the first attempt that is not to be repeated.
abbrev pub last_attempt : Chain → CreateMarketTx → ℕ
last_attempt c p =
    if p.is_auto_slippage && slips (attempt c p 1)
    then (if slips (attempt c p 2) then 3 else 2)
    else 1

-- The loop ended by attempt k with a result.
abbrev pub ended : CreateMarketTx → ℕ → Result String → RetryState
ended p k r = record { tries = k; param = param_of p k; result = r }

-- The loop makes one, two or three attempts and stops by its condition: it ends with the outcome
-- and the parameters of the first attempt that does not fail by the slippage limit, or of the
-- third one, or of the first one if the slippage is not automatic; where that attempt panics, so
-- does the loop.
pub send_with_retry-last_attempt :
    (c : Chain) (p : CreateMarketTx)
    → let k = last_attempt c p in
      (send_with_retry c p ≡ and_then (attempt c p k) (λ r. some (ended p k r)))
      × ((r : Result String) → attempt c p k ≡ some r → retry_test (ended p k r) ≡ false)
unfolding send_with_retry
send_with_retry-last_attempt c p = elim (Bool-cases p.is_auto_slippage) [
  | inr manual ↦ elim (Option-cases (create_and_send_tx c 1 p)) [
    | inl e ↦ ground arith
    | inr (r, e) ↦ ground arith
  ]
  | inl auto ↦ elim (Option-cases (create_and_send_tx c 1 p)) [
    | inl e ↦ ground arith
    | inr (r, e) ↦ elim (Bool-cases (fails_by_slippage (converted p.trade_pool_name r))) [
      | inr done ↦ ground arith
      | inl again ↦ elim (Option-cases (create_and_send_tx c 2 (param_of p 2))) [
        | inl e2 ↦ ground arith
        | inr (r2, e2) ↦ elim (Bool-cases (fails_by_slippage (converted p.trade_pool_name r2))) [
          | inr done ↦ ground arith
          | inl third ↦ elim (Option-cases (create_and_send_tx c 3 (param_of p 3))) [
            | inl e3 ↦ ground arith
            | inr (r3, e3) ↦ ground arith
          ]
        ]
      ]
    ]
  ]
]

pub last_attempt_manual :
    (c : Chain) (p : CreateMarketTx) → p.is_auto_slippage ≡ false → last_attempt c p ≡ 1
last_attempt_manual c p h = rw h refl

-- The calls of the manager return.
abbrev pub Returns : Chain → Type 0
Returns c =
    ((k : ℕ) (p : CreateMarketTx) → (r : Result String) × (c.build_unsigned k p ≡ some r))
    × ((k : ℕ) (unsigned wallet : String)
        → (r : Result String) × (c.sign_and_send k unsigned wallet ≡ some r))

create_and_send_tx-total :
    (c : Chain)
    → Returns c
    → (k : ℕ) (p : CreateMarketTx) → (r : Result String) × (create_and_send_tx c k p ≡ some r)
unfolding create_and_send_tx
create_and_send_tx-total c (builds, sends) k p = elim (Bool-cases (p.chain_id == sol_chain_id)) [
  | inr other ↦ (err request_err, rw other refl)
  | inl sol ↦ elim (Bool-cases c.has_tx_manager) [
    | inr absent ↦ (
      err (Error.other "SolTxMananger is nil - check if Sol configuration is enabled"),
      rw sol (rw absent refl),
    )
    | inl present ↦ elim (Result-cases (builds k p).0) [
      | inr (e, failed) ↦ (err e, rw sol (rw present (rw (builds k p).1 (rw failed refl))))
      | inl (unsigned, built) ↦
          let (r, sent) = sends k unsigned p.user_wallet_address in
          (r, rw sol (rw present (rw (builds k p).1 (rw built sent))))
    ]
  ]
]

pub send_with_retry-total :
    (c : Chain) (p : CreateMarketTx) → Returns c → (s : RetryState) × (send_with_retry c p ≡ some s)
send_with_retry-total c p returns =
    let k = last_attempt c p in
    let (r, sent) = create_and_send_tx-total c returns k (param_of p k) in
    let result = converted p.trade_pool_name r in
    (
      ended p k result,
      (send_with_retry-last_attempt c p).0
          ∙ ap
              (λ o.
                and_then (and_then o (λ x. some (converted p.trade_pool_name x)))
                  (λ x. some (ended p k x)))
              sent,
    )
