-- ===== src/Transfers/Price/Swap.antt =====
-- The price of a chain of transfers is that of its first swap: two transfers that follow each
-- other, one of SOL and one of USD, where an owner gives of the one and gets of the other.
use mathlib.Core.Option.{some-injective}
use greet.Base.{
  ◌||◌, str_eq, ◌≡◌, refl, ap, ◌∙◌, sym, String, Bool, true, false, Bool-cases, ◌⊎◌, inl, inr,
  if◌then◌else◌, List, [], ◌∷◌, All, Option, none, some, and_then, and_then-eq_some, if_true,
  if_false, Floats,
}
use greet.Transfers.Types.{
  CompiledInstruction, InnerInstruction, TransferParam, TokenAccount, lookup,
}
use greet.Transfers.Decode.Laws.{InRange, decode_token_transfer-total}
use greet.Transfers.Price.{
  Accounts, swaps, is_swap_transfer, Event, event_of, event_of_result, PriceState, price_of,
  price_step, price_loop, final_price, get_block_sol_price_by_transfer,
}

-- The events of all instructions.
abbrev pub events : List String → Accounts → List CompiledInstruction → Option (List Event)
events keys m [] = some []
events keys m (i ∷ is) =
    and_then (event_of keys m i) λ e. and_then (events keys m is) λ es. some (e ∷ es)

-- Two events that follow each other and exchange SOL and USD: first the USD, then the SOL.
abbrev pub exchange : Event → Event → Option (TransferParam × TransferParam)
exchange (Event.moves_sol sol) (Event.moves_usd usd) = some (usd, sol)
exchange (Event.moves_usd usd) (Event.moves_sol sol) = some (usd, sol)
exchange _ _ = none

abbrev pub owner_of : Accounts → String → Option String
owner_of m key = and_then (lookup m key) (λ account. some account.owner)

-- All four ends have owners, and the one that gives of a transfer gets of the other.
abbrev pub gives_and_gets : Option String → Option String → Option String → Option String → Bool
gives_and_gets (some a_from) (some a_to) (some b_from) (some b_to) =
    str_eq a_from b_to || str_eq b_from a_to
gives_and_gets _ _ _ _ = false

abbrev pub linked : Accounts → TransferParam → TransferParam → Bool
linked m a b =
    gives_and_gets (owner_of m a.from) (owner_of m a.to) (owner_of m b.from) (owner_of m b.to)

abbrev pub is_swap : Accounts → Option (TransferParam × TransferParam) → Bool
is_swap m none = false
is_swap m (some (usd, sol)) = linked m sol usd

ends_linked :
    (a_from a_to b_from b_to : Option TokenAccount)
    → swaps
        (and_then a_from λ x. and_then a_to λ y. some (x.owner, y.owner))
        (and_then b_from λ x. and_then b_to λ y. some (x.owner, y.owner))
      ≡ gives_and_gets
          (and_then a_from (λ x. some x.owner))
          (and_then a_to (λ x. some x.owner))
          (and_then b_from (λ x. some x.owner))
          (and_then b_to (λ x. some x.owner))
ends_linked none a_to b_from b_to = refl
ends_linked (some w) none b_from b_to = refl
ends_linked (some w) (some x) none b_to = refl
ends_linked (some w) (some x) (some y) none = refl
ends_linked (some w) (some x) (some y) (some z) = refl

is_swap_transfer-linked :
    (m : Accounts) (a b : TransferParam) → is_swap_transfer (some a) (some b) m ≡ linked m a b
unfolding is_swap_transfer
is_swap_transfer-linked m a b =
    ends_linked (lookup m a.from) (lookup m a.to) (lookup m b.from) (lookup m b.to)

module _ (f : Floats) where
  open f use {F}

  abbrev pub price_of_exchange : Option (TransferParam × TransferParam) → F
  price_of_exchange none = f.zero_f
  price_of_exchange (some (usd, sol)) =
      f.mul_f (f.div_f (f.of_nat usd.amount) (f.of_nat sol.amount)) (f.of_nat 1000)

  -- The price of the first swap among the events after the given one.
  abbrev pub swap_price : Accounts → Event → List Event → F
  swap_price m prev [] = f.zero_f
  swap_price m prev (e ∷ es) =
      let rest = swap_price m e es in
      if is_swap m (exchange prev e) then price_of_exchange (exchange prev e) else rest

  -- The variables of the loop after an event at which it goes on.
  abbrev after : F → Event → PriceState f
  after p Event.breaks = record {
    sol_price = p;
    transfer_sol = none;
    transfer_usd = none;
    connect = false;
    done = false;
  }
  after p (Event.moves_sol t) = record {
    sol_price = p;
    transfer_sol = some t;
    transfer_usd = none;
    connect = true;
    done = false;
  }
  after p (Event.moves_usd t) = record {
    sol_price = p;
    transfer_sol = none;
    transfer_usd = some t;
    connect = true;
    done = false;
  }

  abbrev Broke : Accounts → Event → Event → PriceState f → Type 0
  Broke m prev e s =
      (s.done ≡ true)
      × (is_swap m (exchange prev e) ≡ true)
      × (final_price f s.transfer_sol s.transfer_usd s.connect
          ≡ price_of_exchange (exchange prev e))

  abbrev WentOn : Accounts → Event → Event → PriceState f → Type 0
  WentOn m prev e s = (is_swap m (exchange prev e) ≡ false) × (q : F) × (s ≡ after q e)

  step_cases :
      (m : Accounts) (p : F) (prev e : Event)
      → Broke m prev e (price_step f m e (after p prev))
        ⊎ WentOn m prev e (price_step f m e (after p prev))
  unfolding price_step
  step_cases m p Event.breaks Event.breaks = inr (refl, p, refl)
  step_cases m p Event.breaks (Event.moves_sol t) = inr (refl, p, refl)
  step_cases m p Event.breaks (Event.moves_usd t) = inr (refl, p, refl)
  step_cases m p (Event.moves_sol u) Event.breaks = inr (refl, p, refl)
  step_cases m p (Event.moves_sol u) (Event.moves_sol t) = inr (refl, p, refl)
  step_cases m p (Event.moves_usd u) Event.breaks = inr (refl, p, refl)
  step_cases m p (Event.moves_usd u) (Event.moves_usd t) = inr (refl, p, refl)
  step_cases m p (Event.moves_sol u) (Event.moves_usd t) =
      elim (Bool-cases (is_swap_transfer (some u) (some t) m)) [
        | inl swap ↦ inl (rw swap refl, sym (is_swap_transfer-linked m u t) ∙ swap, rw swap refl)
        | inr apart ↦
            inr (sym (is_swap_transfer-linked m u t) ∙ apart, price_of f t u, rw apart refl)
      ]
  step_cases m p (Event.moves_usd u) (Event.moves_sol t) =
      elim (Bool-cases (is_swap_transfer (some t) (some u) m)) [
        | inl swap ↦ inl (rw swap refl, sym (is_swap_transfer-linked m t u) ∙ swap, rw swap refl)
        | inr apart ↦
            inr (sym (is_swap_transfer-linked m t u) ∙ apart, price_of f u t, rw apart refl)
      ]

  abbrev final : PriceState f → F
  final s = final_price f s.transfer_sol s.transfer_usd s.connect

  final-after : (m : Accounts) (p : F) (e : Event) → final (after p e) ≡ f.zero_f
  final-after m p Event.breaks = refl
  final-after m p (Event.moves_sol t) = refl
  final-after m p (Event.moves_usd t) = refl

  after-done : (p : F) (e : Event) → (after p e).done ≡ false
  after-done p Event.breaks = refl
  after-done p (Event.moves_sol t) = refl
  after-done p (Event.moves_usd t) = refl

  loop_stops :
      (keys : List String) (m : Accounts) (i : CompiledInstruction) (is : List CompiledInstruction)
      (s : PriceState f) (e : Event)
      → event_of keys m i ≡ some e
      → (price_step f m e s).done ≡ true
      → price_loop f keys m (i ∷ is) s ≡ some (price_step f m e s)
  unfolding price_loop
  loop_stops keys m i is s e he done = rw he (rw done refl)

  loop_goes_on :
      (keys : List String) (m : Accounts) (i : CompiledInstruction) (is : List CompiledInstruction)
      (s : PriceState f) (e : Event) (p : F)
      → event_of keys m i ≡ some e
      → price_step f m e s ≡ after p e
      → price_loop f keys m (i ∷ is) s ≡ price_loop f keys m is (after p e)
  unfolding price_loop
  loop_goes_on keys m i is s e p he same = rw he (rw same (rw (after-done p e) refl))

  loop-swap_price :
      (keys : List String) (m : Accounts) (is : List CompiledInstruction) (p : F) (prev : Event)
      {es : List Event}
      → events keys m is ≡ some es
      → (s : PriceState f) × (price_loop f keys m is (after p prev) ≡ some s)
        × (final s ≡ swap_price m prev es)
  loop-swap_price keys m [] p prev h = (
    after p prev,
    unfold price_loop in refl,
    final-after m p prev ∙ ap (swap_price m prev) (some-injective _ _ h),
  )
  loop-swap_price keys m (i ∷ is) p prev h =
      let (e, e1, h1) = and_then-eq_some (event_of keys m i) _ h in
      let (es, e2, h2) = and_then-eq_some (events keys m is) _ h1 in
      let list = some-injective _ _ h2 in
      elim (step_cases m p prev e) [
        | inl (done, swap, price) ↦ (
          price_step f m e (after p prev),
          loop_stops keys m i is (after p prev) e e1 done,
          price ∙ (sym (if_true _ _ swap) ∙ ap (swap_price m prev) list),
        )
        | inr (apart, q, same) ↦
            let (s, run, price) = loop-swap_price keys m is q e e2 in
            (
              s,
              loop_goes_on keys m i is (after p prev) e q e1 same ∙ run,
              price ∙ (sym (if_false _ _ apart) ∙ ap (swap_price m prev) list),
            )
      ]

  -- Where every instruction has an event (its indices are in range), the price of a chain of
  -- transfers, a thousand times the USD over the SOL, is that of the first two events in a row that
  -- move SOL and USD, in either order, where all ends have owners and the owner that gives of one
  -- of the two gets of the other; it is zero where there are none, or no instructions at all.
  pub get_block_sol_price_by_transfer-swap_price :
      (keys : List String) (m : Accounts) (inner : InnerInstruction) {es : List Event}
      → events keys m inner.instructions ≡ some es
      → (get_block_sol_price_by_transfer f keys none m ≡ some f.zero_f)
        × (get_block_sol_price_by_transfer f keys (some inner) m
            ≡ some (swap_price m Event.breaks es))
  unfolding get_block_sol_price_by_transfer
  get_block_sol_price_by_transfer-swap_price keys m inner h =
      let (s, run, price) = loop-swap_price keys m inner.instructions f.zero_f Event.breaks h in
      (refl, rw run (ap some price))

-- Instructions whose indices are in range have their events.
pub events-total :
    (keys : List String) (m : Accounts) (is : List CompiledInstruction)
    → All (InRange keys) is
    → (es : List Event) × (events keys m is ≡ some es)
events-total keys m [] h = ([], refl)
events-total keys m (i ∷ is) (hi, his) =
    let (r, e) = decode_token_transfer-total keys i hi in
    let (es, es_eq) = events-total keys m is his in (event_of_result m r ∷ es, rw e (rw es_eq refl))
