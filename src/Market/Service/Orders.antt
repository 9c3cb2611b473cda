-- ===== src/Market/Service/Orders.antt =====
-- The orders that the order flow accepts with this market.
use Prim.Native.String.{◌++◌ as ◌<>◌}
use greet.Base.{
  error_text, ℕ, ◌==◌, ◌≡◌, refl, sym, ap, ◌∙◌, inl, inr, String, str_eq, Bool, true, false,
  Bool-cases, if◌then◌else◌, if_true, if_false, List, filter, none, some, and_then,
  and_then-eq_some, Error, Result, ok, err, ok-injective, Floats, Decimals, Ordered, arith,
}
use mathlib.Core.List.{Permᴰ}
use greet.Order.Types.{TradeOrder, PairInfo, Request, sol_chain_id}
use greet.Order.Params.{Chain}
use greet.Order.Store.{Store}
use mathlib.Core.Path.{subst}
use mathlib.Core.Option.{some-injective}
use greet.Order.Flow.{
  Market, PairDecimals, found_pair, from_float, pair_decimals, base_price, accept, new_order,
}
use greet.Order.Flow.Whole.{accept-Accepted}
use greet.Pairs.Types.{PairRow}
use greet.Market.Lookup.{Category, is_asked, no_pair, find_one_by_chain_id_token_address}
use greet.Market.Lookup.Chosen.{Chosen, find_one_by_chain_id_token_address-Chosen}
use greet.Market.Service.{
  received_pair, received_price, price_since, MarketServer, PairInfoResponse, response_of,
  with_pair, after_query, is_not_found, as_pair_info, get_pair_info_by_token,
  get_native_token_price, market_of,
}

refused :
    {A : Type 0} (test : Bool) (e e' : Error) {a : A} → (if test then err e else err e') ≡ ok a → ⊥
refused true e e' h = cc
refused false e e' h = cc

module _ (f : Floats) (sv : MarketServer f) where
  open f use {F}

  with_pair-eq_ok :
      (chain_id : ℕ) (token_address : String) (p : PairRow F) {r : PairInfoResponse F}
      → with_pair chain_id token_address p ≡ ok r
      → (str_eq p.address "" ≡ false) × (response_of chain_id p ≡ r)
  with_pair-eq_ok chain_id token_address p {r} h = elim (Bool-cases (str_eq p.address "")) [
    | inl empty ↦ absurd (cc (sym (if_true (err _) (ok (response_of chain_id p)) empty) ∙ h))
    | inr given ↦
        (given, ok-injective _ _ (sym (if_false (err _) (ok (response_of chain_id p)) given) ∙ h))
  ]

  after_query-eq_ok :
      (chain_id : ℕ) (token_address : String) (q : Result (PairRow F)) {r : PairInfoResponse F}
      → after_query chain_id token_address q ≡ ok r
      → (p : PairRow F) × (q ≡ ok p) × (str_eq p.address "" ≡ false) × (response_of chain_id p ≡ r)
  after_query-eq_ok chain_id token_address (ok p) h =
      let (given, same) = with_pair-eq_ok chain_id token_address p h in (p, refl, given, same)
  after_query-eq_ok chain_id token_address (err e) h =
      absurd (refused (is_not_found e) (Error.other _) e h)

  get_pair_info_by_token-eq_ok :
      (chain_id : ℕ) (token_address : String) {r : PairInfoResponse F}
      → get_pair_info_by_token f sv chain_id token_address ≡ ok r
      → (p : PairRow F) × (chain_id ≡ sol_chain_id)
        × (find_one_by_chain_id_token_address f sv.in_order chain_id token_address sv.pairs ≡ ok p)
        × (str_eq p.address "" ≡ false)
        × (response_of chain_id p ≡ r)
  unfolding get_pair_info_by_token
  get_pair_info_by_token-eq_ok chain_id token_address h =
      elim (Bool-cases (chain_id == sol_chain_id)) [
        | inl sol ↦
            let (p, found, given, same) =
              after_query-eq_ok chain_id token_address
                (find_one_by_chain_id_token_address f sv.in_order chain_id token_address sv.pairs)
                (sym (if_true _ (with_pair chain_id token_address (no_pair f)) sol) ∙ h) in
            (p, ground arith, found, given, same)
        | inr other ↦
            let (given, _) = with_pair-eq_ok chain_id token_address (no_pair f) (
              sym (
                if_false
                  (after_query chain_id token_address (
                    find_one_by_chain_id_token_address f sv.in_order chain_id token_address
                      sv.pairs))
                  (with_pair chain_id token_address (no_pair f)) other)
              ∙ h) in
            absurd (cc given)
      ]

module _ (f : Floats) (d : Decimals f.F) (db : Store f.F d.D) (m : Market f.F) (c : Chain) where
  open f use {F}
  open d use {D}

  found_pair-eq_ok :
      (req : Request) {pair : PairInfo F}
      → found_pair f d db m c req ≡ ok pair
      → m.pair_info_by_token req.chain_id req.token_ca ≡ ok (some pair)
  unfolding found_pair
  found_pair-eq_ok req {pair} h =
      (elim (m.pair_info_by_token req.chain_id req.token_ca)
          as (λ x.
            (elim x [
              | err e ↦ err (Error.other ("err is " <> error_text e))
              | ok none ↦ err (Error.other ("pair info is nil for token " <> req.token_ca))
              | ok (some pair) ↦ ok pair
            ])
              ≡ ok pair
            → x ≡ ok (some pair)) [
              | err e ↦ λ h. absurd (cc h)
              | ok none ↦ λ h. absurd (cc h)
              | ok (some found) ↦ λ h. ap (λ p. ok (some p)) (ok-injective _ _ h)
            ])
        h

  from_float-eq_some : (x : F) {y : D} → from_float f d db m c x ≡ some y → d.of_float x ≡ y
  from_float-eq_some x h = elim (Bool-cases (d.is_number x)) [
    | inl number ↦ some-injective _ _ (sym (if_true _ _ number) ∙ h)
    | inr other ↦ absurd (cc (sym (if_false _ _ other) ∙ h))
  ]

  pair_decimals-eq_some :
      (pair : PairInfo F) {ds : PairDecimals D}
      → pair_decimals f d db m c pair ≡ some ds
      → (d.of_float pair.fdv ≡ ds.cap) × (d.of_float pair.base_token_price ≡ ds.base)
  pair_decimals-eq_some pair h =
      let (cap, e1, h1) = and_then-eq_some (from_float f d db m c pair.fdv) _ h in
      let (base, e2, h2) = and_then-eq_some (from_float f d db m c pair.base_token_price) _ h1 in
      let (token, _, h3) = and_then-eq_some (from_float f d db m c pair.token_price) _ h2 in
      let e = some-injective _ _ h3 in
      (
        from_float-eq_some pair.fdv e1 ∙ ap (λ (x : PairDecimals D). x.cap) e,
        from_float-eq_some pair.base_token_price e2 ∙ ap (λ (x : PairDecimals D). x.base) e,
      )

  -- The pair of an accepted order is the market's, and its price the base price.
  accept-pair :
      (req : Request) {o : TradeOrder F D} {pair : PairInfo F}
      → accept f d db m c req ≡ some (ok (o, pair))
      → (amount : D) × (ds : PairDecimals D) × (price : D) × (m.pair_info_by_token req.chain_id
            req.token_ca
          ≡ ok (some pair))
        × (d.of_float pair.fdv ≡ ds.cap)
        × (d.of_float pair.base_token_price ≡ ds.base)
        × (base_price f d db m c req ds.base ≡ some (ok price))
        × (new_order f d db m c req amount pair ds price ≡ o)
  accept-pair req {o} {pair} h =
      let (amount, ds, price, _, _, found, same, priced, made) = accept-Accepted f d db m c req h in
      let (cap, base) = pair_decimals-eq_some pair same in
      (amount, ds, price, found_pair-eq_ok req found, cap, base, priced, sym made)

module _ (f : Floats) (d : Decimals f.F) (db : Store f.F d.D) (sv : MarketServer f)
    (c : Chain) where
  open f use {F}
  open d use {D}

  received_pair-eq_ok :
      (r : Result (PairInfoResponse F)) {pair : PairInfo F}
      → received_pair f sv r ≡ ok (some pair)
      → (x : PairInfoResponse F) × (r ≡ ok x) × (as_pair_info x ≡ pair)
  received_pair-eq_ok (ok x) h = (x, refl, some-injective _ _ (ok-injective _ _ h))
  received_pair-eq_ok (err e) h = absurd (cc h)

  -- The row that an order is made of.
  abbrev pub OfRow : Request → TradeOrder F D → PairRow F → Type 0
  OfRow req o r =
      (o.pair_ca ≡ r.address)
      × (o.dex_name ≡ r.name)
      × (o.order_cap ≡ d.of_float r.fdv)
      × (str_eq r.address "" ≡ false)

  query-Chosen :
      (ordered : Ordered f)
      → ((cs : List (Category F)) → Permᴰ cs (sv.in_order cs))
      → (table : List (PairRow F)) (req : Request) (r : PairRow F)
      → find_one_by_chain_id_token_address f sv.in_order req.chain_id req.token_ca (ok table) ≡ ok r
      → Chosen f (filter (is_asked req.chain_id req.token_ca) table) r
  query-Chosen ordered perm table req r query =
      elim (find_one_by_chain_id_token_address-Chosen f ordered sv.in_order perm req.chain_id
        req.token_ca table) [
          | inl (_, missing) ↦ absurd (cc (sym missing ∙ query))
          | inr (r', found, chosen) ↦
              subst (Chosen f (filter (is_asked req.chain_id req.token_ca) table))
                (ok-injective _ _ (sym found ∙ query)) chosen
        ]

  -- An accepted order is for the chain of Solana and for the pair that the choice among the rows of
  -- its token gives, in whatever order the categories are read; that pair has an address.
  pub accept-Chosen :
      (ordered : Ordered f)
      → ((cs : List (Category F)) → Permᴰ cs (sv.in_order cs))
      → (table : List (PairRow F)) → sv.pairs ≡ ok table
      → (req : Request) (o : TradeOrder F D) (pair : PairInfo F)
      → accept f d db (market_of f sv) c req ≡ some (ok (o, pair))
      → (r : PairRow F) × (req.chain_id ≡ sol_chain_id)
        × Chosen f (filter (is_asked req.chain_id req.token_ca) table) r
        × OfRow req o r
  unfolding market_of new_order
  accept-Chosen ordered perm table read req o pair h =
      let (amount, ds, price, found, cap, _, _, made) =
        accept-pair f d db (market_of f sv) c req h in
      let (x, answer, as_info) =
        received_pair-eq_ok (get_pair_info_by_token f sv req.chain_id req.token_ca) found in
      let (r, sol, query, given, response) =
        get_pair_info_by_token-eq_ok f sv req.chain_id req.token_ca answer in
      let info : as_pair_info (response_of req.chain_id r) ≡ pair =
        ap as_pair_info response ∙ as_info in
      (
        r,
        sol,
        query-Chosen ordered perm table req r (
            sym
              (ap (find_one_by_chain_id_token_address f sv.in_order req.chain_id req.token_ca) read)
            ∙ query),
        (
          sym (ap (λ (o : TradeOrder F D). o.pair_ca) made)
              ∙ sym (ap (λ (i : PairInfo F). i.address) info),
          sym (ap (λ (o : TradeOrder F D). o.dex_name) made)
              ∙ sym (ap (λ (i : PairInfo F). i.name) info),
          sym (ap (λ (o : TradeOrder F D). o.order_cap) made)
              ∙ sym (ap (λ (i : PairInfo F). d.of_float i.fdv) info ∙ cap),
          given,
        ),
      )

  -- The market's price for the order flow is never above zero: the request has no time, which is
  -- not parsed, and a nil answer is an error or no price.
  no_price :
      (e : Error)
      → sv.parse_time "" ≡ err e
      → ((p : F) → sv.received_nil ≡ ok p → f.lt_f f.zero_f p ≡ false)
      → (chain_id : ℕ) (p : F) → (market_of f sv).native_token_price chain_id ≡ ok p
      → f.lt_f f.zero_f p ≡ false
  unfolding market_of get_native_token_price
  no_price e unparsed no_value chain_id p h =
      no_value p (sym (ap (λ t. received_price f sv (price_since f sv chain_id t)) unparsed) ∙ h)

  priced_positive :
      (req : Request) (e : Error) (answer : Result F)
      → ((p : F) → answer ≡ ok p → f.lt_f f.zero_f p ≡ false)
      → {price : D}
      → (elim answer [
        | ok p ↦
            if f.lt_f f.zero_f p
            then and_then (from_float f d db (market_of f sv) c p) (λ x. some (ok x))
            else some (err e)
        | err e' ↦ some (err e)
      ])
        ≡ some (ok price)
      → ⊥
  priced_positive req e (ok p) low h = cc (
      sym (
        if_false (and_then (from_float f d db (market_of f sv) c p) (λ x. some (ok x)))
          (some (err e)) (low p refl))
      ∙ h)
  priced_positive req e (err e') low h = cc h

  base_price-given :
      (req : Request) (base : D)
      → ((p : F)
          → (market_of f sv).native_token_price req.chain_id ≡ ok p
          → f.lt_f f.zero_f p ≡ false)
      → {price : D} → base_price f d db (market_of f sv) c req base ≡ some (ok price)
      → (d.is_zero base ≡ false) × (base ≡ price)
  unfolding base_price
  base_price-given req base low h = elim (Bool-cases (d.is_zero base)) [
    | inr given ↦ (given, ok-injective _ _ (some-injective _ _ (sym (if_false _ _ given) ∙ h)))
    | inl zero_price ↦ elim (Bool-cases (req.chain_id == sol_chain_id)) [
      | inl sol ↦ absurd (
          priced_positive req _ ((market_of f sv).native_token_price req.chain_id) low
            (sym (if_true _ _ sol) ∙ sym (if_true _ _ zero_price) ∙ h))
      | inr other ↦ absurd (cc (sym (if_false _ _ other) ∙ sym (if_true _ _ zero_price) ∙ h))
    ]
  ]

  -- Where the pair of a token has no base price, its orders are refused: the price that the order
  -- flow then asks for is never given.
  pub accept_needs_base_price :
      (e : Error)
      → sv.parse_time "" ≡ err e
      → ((p : F) → sv.received_nil ≡ ok p → f.lt_f f.zero_f p ≡ false)
      → (req : Request) (o : TradeOrder F D) (pair : PairInfo F)
      → accept f d db (market_of f sv) c req ≡ some (ok (o, pair))
      → (d.is_zero (d.of_float pair.base_token_price) ≡ false)
        × (o.order_base_price ≡ d.of_float pair.base_token_price)
  unfolding new_order
  accept_needs_base_price e unparsed no_value req o pair h =
      let (amount, ds, price, _, _, base, priced, made) =
        accept-pair f d db (market_of f sv) c req h in
      let (given, same) =
        base_price-given req ds.base (no_price e unparsed no_value req.chain_id) priced in
      (
        ap d.is_zero base ∙ given,
        sym (ap (λ (o : TradeOrder F D). o.order_base_price) made) ∙ sym (base ∙ same),
      )
