-- ===== src/Order/Flow/Whole.antt =====
-- A whole request: `CreateMarketOrder` always returns, and what its order and the tables are then.
use greet.Base.{
  ℕ, ◌==◌, ltb, ◌≡◌, ◌∙◌, ap, ◌⊎◌, refl, String, true, false, Bool-cases, inl, inr, Option, none,
  some, Error, Result, ok, err, Result-cases, Floats, Decimals, if◌then◌else◌, >>=-eq-ok, ◌>>=◌,
  require-eq-ok, go_on-eq_some, and_then-eq_some, ok-injective, if_true, if_false, sym,
}
use Prim.Native.String.{len}
use mathlib.Core.Path.{subst}
use mathlib.Core.Option.{some-injective}
use greet.Order.Types.{
  TradeOrder, CreateMarketTx, PairInfo, Request, status_proc, server_err, sol_chain_id,
}
use greet.Order.Store.{Store, insert_with_log, insert_with_log-row}
use greet.Order.Params.{Chain, build_param}
use greet.Order.Status.{Updated, update_db_by_tx_result}
use greet.Order.Flow.{
  Market, Sent, hash_of, error_of, after_update, record_result, deferred, create_market_tx,
  new_order, base_price, found_pair, positive_amount, accept, inserted, no_hash,
  create_market_order, fail_order, PairDecimals, pair_decimals, accept_priced, no_current_price,
}
use greet.Order.Retry.Attempts.{Returns, send_with_retry-total}
use greet.Order.Flow.Settled.{Settled, create_market_tx-Settled}

update_db_by_tx_result-total :
    {F D : Type 0} (db : Store F D) (o : TradeOrder F D) (p : CreateMarketTx) (hash : String)
    (reason : Option Error) (s : db.S)
    → (u : Updated F D db.S) × (update_db_by_tx_result db o (some p) hash reason s ≡ some u)
unfolding update_db_by_tx_result
update_db_by_tx_result-total db o p hash none s = (_, refl)
update_db_by_tx_result-total db o p hash (some e) s = (_, refl)

module _ (f : Floats) (d : Decimals f.F) (db : Store f.F d.D) (m : Market f.F) (c : Chain) where
  open f use {F}
  open d use {D}
  open db use {S}

  record_result-total :
      (o : TradeOrder F D) (p : CreateMarketTx) (r : Result String) (s : S)
      → (x : Sent F D S) × (record_result f d db m c o p r s ≡ some x)
  unfolding record_result
  record_result-total o p r s = elim (Bool-cases (ltb 100 (len (hash_of r)))) [
    | inl long ↦ (record { order = o; tables = s; result = r }, rw long)
    | inr short ↦
        let (u, e) = update_db_by_tx_result-total db o p (hash_of r) (error_of r) s in
        (
          record { order = u.order; tables = u.tables; result = after_update u.failed r },
          rw (short, e),
        )
  ]

  deferred-total :
      (o : TradeOrder F D) (s : S) (r : Result String)
      → (x : Sent F D S) × (deferred f d db m c o s r ≡ some x)
  unfolding deferred update_db_by_tx_result
  deferred-total o s (ok h) = (_, refl)
  deferred-total o s (err e) =
      elim (o.status == status_proc)
        as (λ b.
          (x : Sent F D S) × ((if b
              then fail_order f d db m c o s e
              else some (record { order = o; tables = s; result = err e }))
            ≡ some x)) [ true ↦ (_, refl) | false ↦ (_, refl) ]

  -- With a pair at hand the call returns.
  create_market_tx-total :
      (o : TradeOrder F D) (pair : PairInfo F) (s : S)
      → Returns c
      → (x : Sent F D S) × (create_market_tx f d db m c o (some pair) s ≡ some x)
  unfolding create_market_tx
  create_market_tx-total o pair s returns =
      let (r, er) = send_with_retry-total c (build_param d c o pair) returns in
      let (y, ey) = record_result-total o r.param r.result s in
      let (x, ex) = deferred-total y.order y.tables y.result in (x, rw er (rw ey ex))

  -- What a request that is accepted shows: its amount is a positive number, the market has the
  -- pair, there is a base price, and the order is the new one made of these.
  abbrev pub Accepted : Request → TradeOrder F D → PairInfo F → Type 0
  Accepted req o pair =
      (amount : D) × (ds : PairDecimals D) × (price : D) × (d.of_string req.amount_in ≡ ok amount)
      × (d.is_positive amount ≡ true)
      × (found_pair f d db m c req ≡ ok pair)
      × (pair_decimals f d db m c pair ≡ some ds)
      × (base_price f d db m c req ds.base ≡ some (ok price))
      × (o ≡ new_order f d db m c req amount pair ds price)

  pub accept-Accepted :
      (req : Request) {o : TradeOrder F D} {pair : PairInfo F}
      → accept f d db m c req ≡ some (ok (o, pair))
      → Accepted req o pair
  unfolding accept positive_amount accept_priced
  accept-Accepted req h =
      let (amount, ea, h1) = go_on-eq_some (positive_amount f d db m c req) _ h in
      let (pair', ep, h2) = go_on-eq_some (found_pair f d db m c req) _ h1 in
      let (ds, ed, h3) = and_then-eq_some (pair_decimals f d db m c pair') _ h2 in
      let (r, er, h4) = and_then-eq_some (base_price f d db m c req ds.base) _ h3 in
      let (price, eb, h5) = >>=-eq-ok r _ (some-injective _ _ h4) in
      let (amount', parsed, h6) = >>=-eq-ok (d.of_string req.amount_in) _ ea in
      let (positive, same) = require-eq-ok (d.is_positive amount') _ amount' h6 in
      let e = ok-injective _ _ h5 in
      let pair_is = ap (λ (x : TradeOrder F D × PairInfo F). x.1) e in
      (
        amount,
        ds,
        price,
        parsed ∙ ap ok same,
        rw (← same) positive,
        ep ∙ ap ok pair_is,
        sym (ap (pair_decimals f d db m c) pair_is) ∙ ed,
        er ∙ ap some eb,
        sym (ap (λ (x : TradeOrder F D × PairInfo F). x.0) e)
            ∙ ap (λ p. new_order f d db m c req amount p ds price) pair_is,
      )

  -- The floats that the market gives for a request are numbers.
  abbrev pub Numbers : Request → Type 0
  Numbers req =
      ((pair : PairInfo F)
        → found_pair f d db m c req ≡ ok pair
        → (d.is_number pair.fdv ≡ true)
          × (d.is_number pair.base_token_price ≡ true)
          × (d.is_number pair.token_price ≡ true))
      × ((p : F) → m.native_token_price req.chain_id ≡ ok p → d.is_number p ≡ true)

  base_price-total :
      (req : Request) (base : D)
      → ((p : F) → m.native_token_price req.chain_id ≡ ok p → d.is_number p ≡ true)
      → (r : Result D) × (base_price f d db m c req base ≡ some r)
  unfolding base_price
  base_price-total req base number = elim (Bool-cases (d.is_zero base)) [
    | inr given ↦ (_, if_false _ _ given)
    | inl zero_price ↦ elim (Bool-cases (req.chain_id == sol_chain_id)) [
      | inr other ↦ (_, if_true _ _ zero_price ∙ if_false _ _ other)
      | inl sol ↦ elim (Result-cases (m.native_token_price req.chain_id)) [
        | inr (e, failed) ↦ (
          err (no_current_price f d db m c req),
          if_true _ _ zero_price ∙ (if_true _ _ sol ∙ rw failed refl),
        )
        | inl (p, known) ↦ elim (Bool-cases (f.lt_f f.zero_f p)) [
          | inr low ↦ (
            err (no_current_price f d db m c req),
            if_true _ _ zero_price ∙ (if_true _ _ sol ∙ rw known (if_false _ _ low)),
          )
          | inl high ↦ (
            ok (d.of_float p),
            if_true _ _ zero_price
                ∙ (if_true _ _ sol ∙ rw known (if_true _ _ high ∙ rw (number p known) refl)),
          )
        ]
      ]
    ]
  ]

  -- Where those floats are numbers, the checks end with an order or an error.
  pub accept-total :
      (req : Request)
      → Numbers req
      → (r : Result (TradeOrder F D × PairInfo F)) × (accept f d db m c req ≡ some r)
  unfolding accept accept_priced
  accept-total req (pairs, native) = elim (Result-cases (positive_amount f d db m c req)) [
    | inr (e, bad) ↦ (err e, rw bad refl)
    | inl (amount, good) ↦ elim (Result-cases (found_pair f d db m c req)) [
      | inr (e, bad) ↦ (err e, rw good (rw bad refl))
      | inl (pair, found) ↦
          let (cap, base, token) = pairs pair found in
          let (r, priced) = base_price-total req (d.of_float pair.base_token_price) native in
          let ds : PairDecimals D = record {
            cap = d.of_float pair.fdv;
            base = d.of_float pair.base_token_price;
            token = d.of_float pair.token_price;
          } in
          (
            r >>= (λ price. ok (new_order f d db m c req amount pair ds price, pair)),
            rw good (rw found (rw cap (rw base (rw token (rw priced refl))))),
          )
    ]
  ]

  pub Accepted-proc :
      (req : Request) (o : TradeOrder F D) (pair : PairInfo F)
      → Accepted req o pair
      → (o.status ≡ status_proc) × (o.is_auto_slippage ≡ 0) × (o.slippage ≡ 5000)
  unfolding new_order
  Accepted-proc req o pair (amount, ds, price, _, _, _, _, _, made) = rw made (refl, refl, refl)

  -- The three ways in which a request ends.
  abbrev pub Rejected : Request → S → S → Result (Unit {0}) → Type 0
  Rejected req s s' r =
      (e : Error) × (accept f d db m c req ≡ some (err e)) × (r ≡ err e) × (s' ≡ s)

  abbrev pub NotInserted : Request → S → S → Result (Unit {0}) → Type 0
  NotInserted req s s' r =
      (o : TradeOrder F D) × (pair : PairInfo F) × Accepted req o pair
      × (insert_with_log db o s ≡ none)
      × (r ≡ err server_err)
      × (s' ≡ s)

  abbrev pub Processed : Request → S → S → Result (Unit {0}) → Type 0
  Processed req s s' r =
      (o : TradeOrder F D) × (pair : PairInfo F) × (i : ℕ) × (s1 : S) × (x : Sent F D S) × Accepted
        req o pair
      × (insert_with_log db o s ≡ some (record o { id = i }, s1))
      × Settled f d db m c (record o { id = i }) s1 x
      × (s' ≡ x.tables)
      × (r ≡ no_hash x.result)

  inserted-ends :
      (req : Request) (o : TradeOrder F D) (pair : PairInfo F) (s : S)
      (answer : Option (TradeOrder F D × S))
      → Returns c
      → Accepted req o pair
      → insert_with_log db o s ≡ answer
      → (s' : S) × (r : Result (Unit {0})) × (inserted f d db m c pair s answer ≡ some (s', r))
        × (NotInserted req s s' r ⊎ Processed req s s' r)
  unfolding inserted
  inserted-ends req o pair s none returns a e =
      (s, err server_err, refl, inl (o, pair, a, e, refl, refl))
  inserted-ends req o pair s (some (o', s1)) returns a e =
      let (i, same, in_row, in_log) = insert_with_log-row db o s e in
      let (x, ex) = create_market_tx-total o' pair s1 returns in
      let in_row' : db.row o'.id s1 ≡ some o' =
        ap (λ (z : TradeOrder F D). db.row z.id s1) same ∙ in_row in
      let (proc, manual, slippage) = Accepted-proc req o pair a in
      let settled =
        create_market_tx-Settled f d db m c o' (some pair) s1 in_row'
          (ap (λ (z : TradeOrder F D). z.status) same ∙ proc) ex in
      (
        x.tables,
        no_hash x.result,
        rw ex,
        inr (
          o,
          pair,
          i,
          s1,
          x,
          a,
          e ∙ ap (λ z. some (z, s1)) same,
          subst (λ z. Settled f d db m c z s1 x) same settled,
          refl,
          refl,
        ),
      )

  -- Where the floats of the market are numbers and the calls of the manager return,
  -- `CreateMarketOrder` returns. A request that the checks refuse gets their error, and one whose
  -- order cannot be inserted gets `ServerErr`, with the tables as before. Any other has its order
  -- inserted as a new one in processing, and the order is then settled.
  pub create_market_order-ends :
      (req : Request) (s : S)
      → Numbers req
      → Returns c
      → (s' : S) × (r : Result (Unit {0})) × (create_market_order f d db m c req s ≡ some (s', r))
        × (Rejected req s s' r ⊎ NotInserted req s s' r ⊎ Processed req s s' r)
  unfolding create_market_order
  create_market_order-ends req s numbers returns =
      let (answer, checked) = accept-total req numbers in
      elim (Result-cases answer) [
        | inr (e, refused) ↦
            let ends = checked ∙ ap some refused in
            (s, err e, rw ends refl, inl (e, ends, refl, refl))
        | inl ((o, pair), accepted) ↦
            let known = checked ∙ ap some accepted in
            let (s', r, ends, how) =
              inserted-ends req o pair s (insert_with_log db o s) returns
                (accept-Accepted req known) refl in
            (s', r, rw known ends, inr how)
      ]
