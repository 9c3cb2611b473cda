-- ===== src/Order/Flow/Settled.antt =====
-- What a call of `CreateMarketTx` leaves behind: the order settled as failed or as on the chain,
-- with the tables in agreement, and the two ways in which that does not hold.
use mathlib.Core.Path.{subst}
use mathlib.Core.Option.{some-injective}
use Prim.Native.String.{len}
use greet.Base.{
  ◌<◌, ◌==◌, ltb, ◌≡◌, ◌⊎◌, refl, String, true, false, Bool-cases, inl, inr, Option, none, some,
  and_then, and_then-eq_some, Error, error_text, Result, ok, err, Floats, Decimals, arith,
}
use greet.Order.Types.{
  TradeOrder, CreateMarketTx, PairInfo, status_proc, status_fail, status_on_chain,
}
use greet.Order.Store.{Store}
use greet.Order.Params.{Chain, build_param}
use greet.Order.Retry.{send_with_retry}
use greet.Order.Status.{Updated, update_db_by_tx_result}
use greet.Order.Status.Sync.{InSync, Refused, GoodUpdate, update_db_by_tx_result-GoodUpdate}
use greet.Order.Flow.{
  Market, Sent, after_update, record_result, deferred, with_fetched,
  create_market_tx_with_pair_info, create_market_tx,
}

module _ (f : Floats) (d : Decimals f.F) (db : Store f.F d.D) (m : Market f.F) (c : Chain) where
  open f use {F}
  open d use {D}
  open db use {S}

  -- What is left behind, by what the call returns.
  abbrev pub SettledBy : TradeOrder F D → S → Result String → TradeOrder F D → S → Type 0
  SettledBy o s (err e) o' s' =
      (o'.status ≡ status_fail)
      × (o'.fail_reason ≡ error_text e)
      × (InSync db o' s' ⊎ ((s' ≡ s) × Refused db o o' s))
  SettledBy o s (ok h) o' s' =
      ((100 < len h) × (o' ≡ o) × (s' ≡ s))
      ⊎ ((o'.status ≡ status_on_chain) × (o'.tx_hash ≡ h) × InSync db o' s')
      ⊎ ((o'.status ≡ status_on_chain) × (h ≡ "") × (s' ≡ s) × Refused db o o' s)

  abbrev pub Settled : TradeOrder F D → S → Sent F D S → Type 0
  Settled o s r = (r.order.id ≡ o.id) × SettledBy o s r.result r.order r.tables

  -- The error branch of a status update, of `record_result` and of the deferred function.
  failed-Settled :
      (o : TradeOrder F D) (e : Error) (hash : String) (s : S) (u : Updated F D S)
      → GoodUpdate db o (some e) hash s u
      → Settled o s (record { order = u.order; tables = u.tables; result = err e })
  failed-Settled o e hash s u (inl (done, sync), same_id, (st, why)) =
      (same_id, (st, why, inl sync))
  failed-Settled o e hash s u (inr (reported, same, refused), same_id, (st, why)) =
      (same_id, (st, why, inr (same, refused)))

  sent-Settled :
      (o : TradeOrder F D) (hash : String) (s : S) (u : Updated F D S)
      → GoodUpdate db o none hash s u
      → Settled o s
          (record { order = u.order; tables = u.tables; result = after_update u.failed (ok hash) })
  sent-Settled o hash s u (inl (done, sync), same_id, (st, h)) =
      rw done (same_id, inr (inl (st, h, sync)))
  sent-Settled o hash s u (inr (reported, same, refused), same_id, (st, h)) =
      rw reported (same_id, inr (inr (st, refl, same, refused)))

  after_update_err : (answer : Option Error) (e : Error) → after_update answer (err e) ≡ err e
  after_update_err none e = refl
  after_update_err (some _) e = refl

  record_result-Settled :
      (o : TradeOrder F D) (p : CreateMarketTx) (result : Result String) (s : S) {x : Sent F D S}
      → db.row o.id s ≡ some o
      → record_result f d db m c o p result s ≡ some x
      → Settled o s x
  unfolding record_result
  record_result-Settled o p (err e) s row h =
      let (u, eu, ex) = and_then-eq_some (update_db_by_tx_result db o (some p) "" (some e) s) _ h in
      let good = update_db_by_tx_result-GoodUpdate db o (some p) "" (some e) s row eu in
      subst (Settled o s) (some-injective _ _ ex)
        (rw (after_update_err u.failed e) (failed-Settled o e "" s u good))
  record_result-Settled o p (ok hash) s row h = elim (Bool-cases (ltb 100 (len hash))) [
    | inl long ↦
        subst (Settled o s) (some-injective _ _ (rw long at h))
          (refl, inl (ground arith, refl, refl))
    | inr short ↦
        let (u, eu, ex) =
          and_then-eq_some (update_db_by_tx_result db o (some p) hash none s) _ (rw short at h) in
        subst (Settled o s) (some-injective _ _ ex) (
          sent-Settled o hash s u
            (update_db_by_tx_result-GoodUpdate db o (some p) hash none s row eu))
  ]

  -- What is settled stays: the deferred function sees the failed status and does nothing.
  deferred-Settled :
      (o o' : TradeOrder F D) (s s' : S) (result : Result String) {x : Sent F D S}
      → Settled o s (record { order = o'; tables = s'; result = result })
      → deferred f d db m c o' s' result ≡ some x
      → Settled o s x
  unfolding deferred
  deferred-Settled o o' s s' (ok hash) settled h =
      subst (Settled o s) (some-injective _ _ h) settled
  deferred-Settled o o' s s' (err e) settled h =
      let over : (o'.status == status_proc) ≡ false = rw settled.1.0 in
      subst (Settled o s) (some-injective _ _ (rw over at h)) settled

  -- An order that is still being processed is failed.
  deferred-Settled_proc :
      (o : TradeOrder F D) (s : S) (e : Error) {x : Sent F D S}
      → db.row o.id s ≡ some o
      → o.status ≡ status_proc
      → deferred f d db m c o s (err e) ≡ some x
      → Settled o s x
  unfolding deferred
  deferred-Settled_proc o s e row proc h =
      let open_order : (o.status == status_proc) ≡ true = rw proc in
      let (u, eu, ex) =
        and_then-eq_some (update_db_by_tx_result db o none "" (some e) s) _ (rw open_order at h) in
      subst (Settled o s) (some-injective _ _ ex) (
        failed-Settled o e "" s u
          (update_db_by_tx_result-GoodUpdate db o none "" (some e) s row eu))

  with_pair-Settled :
      (o : TradeOrder F D) (pair : PairInfo F) (s : S) {x : Sent F D S}
      → db.row o.id s ≡ some o
      → and_then
          (create_market_tx_with_pair_info f d db m c o pair s)
          (λ r. deferred f d db m c r.order r.tables r.result)
        ≡ some x
      → Settled o s x
  unfolding create_market_tx_with_pair_info
  with_pair-Settled o pair s row h =
      let (y, ey, ed) =
        and_then-eq_some (create_market_tx_with_pair_info f d db m c o pair s) _ h in
      let (r, _, er) = and_then-eq_some (send_with_retry c (build_param d c o pair)) _ ey in
      deferred-Settled o y.order s y.tables y.result
        (record_result-Settled o r.param r.result s row er) ed

  with_fetched-Settled :
      (o : TradeOrder F D) (answer : Result (Option (PairInfo F))) (s : S) {x : Sent F D S}
      → db.row o.id s ≡ some o
      → o.status ≡ status_proc
      → and_then
          (with_fetched f d db m c o answer s)
          (λ r. deferred f d db m c r.order r.tables r.result)
        ≡ some x
      → Settled o s x
  unfolding with_fetched
  with_fetched-Settled o (err e) s row proc h = deferred-Settled_proc o s e row proc h
  with_fetched-Settled o (ok none) s row proc h = cc
  with_fetched-Settled o (ok (some pair)) s row proc h = with_pair-Settled o pair s row h

  -- From an order in processing that its row agrees with, a call of `CreateMarketTx` that does not
  -- panic keeps the id and settles the order. With an error, the order has the failed status and
  -- the error's text, and row and log agree with it or the table refused the update and is as
  -- before. With a hash, a result of more than 100 bytes leaves order and tables alone; otherwise
  -- the order is on the chain, with the hash in row and log in agreement, or the table refused the
  -- update and is as before and the hash that is returned is empty.
  pub create_market_tx-Settled :
      (o : TradeOrder F D) (pair : Option (PairInfo F)) (s : S) {x : Sent F D S}
      → db.row o.id s ≡ some o
      → o.status ≡ status_proc
      → create_market_tx f d db m c o pair s ≡ some x
      → Settled o s x
  unfolding create_market_tx
  create_market_tx-Settled o (some pair) s row proc h = with_pair-Settled o pair s row h
  create_market_tx-Settled o none s row proc h =
      with_fetched-Settled o (m.pair_info_by_token o.chain_id o.token_ca) s row proc h
