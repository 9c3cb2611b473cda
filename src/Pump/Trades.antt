-- ===== src/Pump/Trades.antt =====
-- What a decoded swap says, and what the pair table makes of it.
use mathlib.Core.Path.{subst}
use mathlib.Core.Option.{some-injective}
use greet.Base.Int.{sub_ℕ}
use greet.Base.{
  ℕ, List, err, if◌then◌else◌, ◌+◌, ◌==◌, ltb, ◌≡◌, ◌⊎◌, inl, inr, refl, sym, ap, ◌∙◌, String, true,
  false, ◌||◌, Bool-cases, if_true, if_false, get_elem?, Option, none, some, and_then-eq_some,
  Result, ok, Floats, Decimals, arith,
}
use greet.Order.Types.{sol_chain_id}
use greet.Transfers.Types.{CompiledInstruction, TokenAccount, lookup}
use greet.Transfers.Decode.{key_at}
use greet.Pairs.Types.{TradeWithPair, PairRow, Token}
use greet.Pairs.Store.{Found, PairStore}
use greet.Pairs.Save.{with_caps, save_found, save_pair}
use greet.Pump.{
  int64_of, PumpEvent, DecodedTx, Codecs, pump_buy, pump_sell, get_pump_instruction, priced_trade,
  trade_of_event, amount_f, events_or_none, decode_pump_event, PumpResult, with_event, with_account,
  decode_swap, decode_pump_instruction,
}

module _ (f : Floats) (d : Decimals f.F) (virtual_init_token init_sol : f.F) (lib : Codecs) where
  open f use {F}

  -- What a trade says of the transaction, of an event of its logs and of the accounts.
  abbrev pub Says :
      DecodedTx F → PumpEvent → String → String → String → TokenAccount → TradeWithPair F → Type 0
  Says dtx e pair to maker account t =
      (t.pair_addr ≡ pair)
      × (t.to ≡ to)
      × (t.maker ≡ maker)
      × (t.tx_hash ≡ dtx.tx_hash)
      × (t.slot ≡ 0)
      × (t.trade_type ≡ (if e.is_buy then "buy" else "sell"))
      × (t.base_token_amount ≡ d.to_float (d.scaled (int64_of e.sol_amount) (sub_ℕ 0 9)))
      × (t.token_amount
          ≡ d.to_float (d.scaled (int64_of e.token_amount) (sub_ℕ 0 account.token_decimal)))
      × (t.base_token_price_usd ≡ dtx.sol_price)
      × (t.total_usd
          ≡ d.to_float (d.mul_d (d.of_float t.base_token_amount) (d.of_float dtx.sol_price)))
      × (t.token_price_usd
          ≡ d.to_float (d.div_d (d.of_float t.total_usd) (d.of_float t.token_amount)))
      × (t.pair_info.addr ≡ pair)
      × (t.pair_info.token_addr ≡ e.mint)
      × (t.pair_info.block_num ≡ dtx.block.slot)

  -- The trade is that of the next event of the logs, which is taken, and of the accounts of the
  -- instruction.
  abbrev pub TradeOf : DecodedTx F → CompiledInstruction → DecodedTx F → TradeWithPair F → Type 0
  TradeOf dtx i dtx' t =
      (e : PumpEvent) × (pair to maker key : String) × (account : TokenAccount) × (es : List
        PumpEvent)
      × (decode_pump_event lib dtx.tx.log_messages ≡ ok es)
      × (get_elem? es dtx.pump_event_index ≡ some e)
      × (dtx' ≡ record dtx { pump_events = es; pump_event_index = dtx.pump_event_index + 1 })
      × (key_at dtx.tx.account_keys i.accounts 3 ≡ some pair)
      × (key_at dtx.tx.account_keys i.accounts 4 ≡ some to)
      × (key_at dtx.tx.account_keys i.accounts 6 ≡ some maker)
      × (key_at dtx.tx.account_keys i.accounts 5 ≡ some key)
      × (lookup dtx.token_accounts key ≡ some account)
      × Says dtx e pair to maker account t

  abbrev trade_or : TradeWithPair F → Result (Option (TradeWithPair F)) → TradeWithPair F
  trade_or t (ok (some t')) = t'
  trade_or t _ = t

  abbrev pub traded : DecodedTx F → TradeWithPair F → PumpResult F
  traded dtx t = (dtx, ok (some t))

  abbrev idle : DecodedTx F → PumpResult F
  idle dtx = (dtx, ok none)

  same_answer :
      {dtx dtx' : DecodedTx F} {t t' : TradeWithPair F}
      → some (traded dtx t) ≡ some (traded dtx' t')
      → (dtx ≡ dtx') × (t ≡ t')
  same_answer {dtx} {dtx'} {t} {t'} h =
      let q : traded dtx t ≡ traded dtx' t' = some-injective _ _ h in
      (ap (λ p. p.0) q, ap (λ p. trade_or t p.1) q)

  priced_trade-inv :
      (dtx : DecodedTx F) (e : PumpEvent) (pair to maker : String) (account : TokenAccount)
      {t : TradeWithPair F}
      → priced_trade f d virtual_init_token init_sol dtx e pair to maker account ≡ some t
      → t ≡ trade_of_event f d virtual_init_token init_sol dtx e pair to maker account
  priced_trade-inv dtx e pair to maker account h =
      elim (Bool-cases (
        d.is_zero (
          d.of_float
            (amount_f f d virtual_init_token init_sol e.token_amount account.token_decimal)))) [
              | inl zero_amount ↦ absurd (cc (sym h ∙ if_true _ _ zero_amount))
              | inr amount ↦ some-injective _ _ (sym h ∙ if_false _ _ amount)
            ]

  with_event-inv :
      (dtx : DecodedTx F) (pair to maker : String) (account : TokenAccount) (o : Option PumpEvent)
      {dtx' : DecodedTx F} {t : TradeWithPair F}
      → with_event f d virtual_init_token init_sol lib dtx pair to maker account o
        ≡ some (dtx', ok (some t))
      → (e : PumpEvent) × (o ≡ some e)
        × (dtx' ≡ record dtx { pump_event_index = dtx.pump_event_index + 1 })
        × (t ≡ trade_of_event f d virtual_init_token init_sol dtx' e pair to maker account)
  with_event-inv dtx pair to maker account none h =
      absurd (cc (ap (λ r. r.1) (some-injective _ _ h)))
  with_event-inv dtx pair to maker account (some e) h =
      let dtx1 = record dtx { pump_event_index = dtx.pump_event_index + 1 } in
      let (t1, priced, h1) =
        and_then-eq_some (priced_trade f d virtual_init_token init_sol dtx1 e pair to maker account)
          _ h in
      let (same, same_t) = same_answer h1 in
      let q = priced_trade-inv dtx1 e pair to maker account priced in
      (
        e,
        refl,
        sym same,
        sym same_t
            ∙ (q
                ∙ ap (λ x. trade_of_event f d virtual_init_token init_sol x e pair to maker account)
                    same),
      )

  events_or_none-inv :
      (r : Result (List PumpEvent)) (n : ℕ) {e : PumpEvent}
      → get_elem? (events_or_none r) n ≡ some e
      → (es : List PumpEvent) × (r ≡ ok es) × (events_or_none r ≡ es)
  events_or_none-inv (ok es) n h = (es, refl, refl)
  events_or_none-inv (err x) n h = absurd (cc h)

  trade_of_event-Says :
      (dtx : DecodedTx F) (es : List PumpEvent) (e : PumpEvent) (pair to maker : String)
      (account : TokenAccount)
      → Says dtx e pair to maker account (
          trade_of_event f d virtual_init_token init_sol
            (record dtx { pump_events = es; pump_event_index = dtx.pump_event_index + 1 })
            e
            pair
            to
            maker
            account)
  unfolding trade_of_event
  trade_of_event-Says dtx es e pair to maker account =
      (refl, refl, refl, refl, refl, refl, refl, refl, refl, refl, refl, refl, refl, refl)

  with_account-inv :
      (dtx : DecodedTx F) (pair to maker : String) (o : Option TokenAccount) {dtx' : DecodedTx F}
      {t : TradeWithPair F}
      → with_account f d virtual_init_token init_sol lib dtx pair to maker o
        ≡ some (dtx', ok (some t))
      → (e : PumpEvent) × (account : TokenAccount) × (o ≡ some account)
        × (es : List PumpEvent) × (decode_pump_event lib dtx.tx.log_messages ≡ ok es)
        × (get_elem? es dtx.pump_event_index ≡ some e)
        × (dtx' ≡ record dtx { pump_events = es; pump_event_index = dtx.pump_event_index + 1 })
        × Says dtx e pair to maker account t
  with_account-inv dtx pair to maker none h = absurd (cc (ap (λ r. r.1) (some-injective _ _ h)))
  with_account-inv dtx pair to maker (some account) {dtx'} h =
      let dtx1 = record dtx {
        pump_events = events_or_none (decode_pump_event lib dtx.tx.log_messages);
      } in
      let (e, found, same, q) =
        with_event-inv dtx1 pair to maker account (get_elem? dtx1.pump_events dtx1.pump_event_index)
          h in
      let (es, read, is_es) =
        events_or_none-inv (decode_pump_event lib dtx.tx.log_messages) _ found in
      let dtx2 : DecodedTx F = record dtx {
        pump_events = es;
        pump_event_index = dtx.pump_event_index + 1;
      } in
      let same2 : dtx' ≡ dtx2 =
        same
        ∙ ap (λ l. record dtx { pump_events = l; pump_event_index = dtx.pump_event_index + 1 })
            is_es in
      (
        e,
        account,
        refl,
        es,
        read,
        sym (ap (λ l. get_elem? l dtx.pump_event_index) is_es) ∙ found,
        same2,
        subst (Says dtx e pair to maker account)
            (sym (
              q
              ∙ ap (λ x. trade_of_event f d virtual_init_token init_sol x e pair to maker account)
                  same2))
            (trade_of_event-Says dtx es e pair to maker account),
      )

  decode_swap-TradeOf :
      (dtx : DecodedTx F) (i : CompiledInstruction) {dtx' : DecodedTx F} {t : TradeWithPair F}
      → decode_swap f d virtual_init_token init_sol lib dtx i ≡ some (dtx', ok (some t))
      → TradeOf dtx i dtx' t
  decode_swap-TradeOf dtx i h =
      let keys = dtx.tx.account_keys in
      let (pair, e3, h1) = and_then-eq_some (key_at keys i.accounts 3) _ h in
      let (to, e4, h2) = and_then-eq_some (key_at keys i.accounts 4) _ h1 in
      let (maker, e6, h3) = and_then-eq_some (key_at keys i.accounts 6) _ h2 in
      let (key, e5, h4) = and_then-eq_some (key_at keys i.accounts 5) _ h3 in
      let (e, account, found, es, read, event, next, says) =
        with_account-inv dtx pair to maker (lookup dtx.token_accounts key) h4 in
      (e, pair, to, maker, key, account, es, read, event, next, e3, e4, e6, e5, found, says)

  -- A trade comes from an instruction whose first eight bytes are those of a buy or a sell: it is
  -- that of the next event of the transaction's logs, which is taken, with the pair, the receiver,
  -- the maker and the maker's token account at their places among the instruction's accounts. It
  -- is a buy or a sell as the event says, its amounts are those of the event, and its values follow
  -- from the price of SOL.
  pub decode_pump_instruction-TradeOf :
      (dtx : DecodedTx F) (i : CompiledInstruction) {dtx' : DecodedTx F} {t : TradeWithPair F}
      → decode_pump_instruction f d virtual_init_token init_sol lib dtx i ≡ some (dtx', ok (some t))
      → ((get_pump_instruction i.bytes ≡ pump_buy) ⊎ (get_pump_instruction i.bytes ≡ pump_sell))
        × TradeOf dtx i dtx' t
  unfolding decode_pump_instruction
  decode_pump_instruction-TradeOf dtx i {dtx'} {t} h =
      let tag = get_pump_instruction i.bytes in
      elim (Bool-cases (tag == pump_buy || tag == pump_sell)) [
        | inr other ↦
            let h' : some (idle dtx) ≡ some (traded dtx' t) = rw other at h in
            absurd (cc (ap (λ r. r.1) (some-injective _ _ h')))
        | inl swap ↦ (ground arith, decode_swap-TradeOf dtx i (sym (if_true _ _ swap) ∙ h))
      ]

  -- A swap of a token amount that is zero as a decimal makes the decoding panic, whatever the rest
  -- of the transaction is.
  pub priced_trade_panics :
      (dtx : DecodedTx F) (pair to maker : String) (account : TokenAccount) (e : PumpEvent)
      → d.is_zero (
          d.of_float
            (amount_f f d virtual_init_token init_sol e.token_amount account.token_decimal))
        ≡ true
      → get_elem? (events_or_none (decode_pump_event lib dtx.tx.log_messages)) dtx.pump_event_index
        ≡ some e
      → with_account f d virtual_init_token init_sol lib dtx pair to maker (some account) ≡ none
  priced_trade_panics dtx pair to maker account e zero_amount next = rw next (rw zero_amount refl)

module _ (f : Floats) (d : Decimals f.F) (virtual_init_token init_sol : f.F) (lib : Codecs)
    (db : PairStore f.F) where
  open f use {F}
  open db use {S}

  -- A decoded trade never changes a pair that the table has: it has no slot, so it is never newer
  -- than the row, and `SavePair` returns the row as it is.
  pub decoded_trade_updates_nothing :
      (dtx : DecodedTx F) (i : CompiledInstruction) {dtx' : DecodedTx F} {t : TradeWithPair F}
      (token : Option (Token F)) (s : S) {r : PairRow F}
      → decode_pump_instruction f d virtual_init_token init_sol lib dtx i ≡ some (dtx', ok (some t))
      → db.find sol_chain_id t.pair_addr s ≡ Found.found r
      → save_pair f d db t token s ≡ record { trade = with_caps f r t; table = s; result = ok r }
  unfolding save_pair save_found
  decoded_trade_updates_nothing dtx i {dtx'} {t} token s {r} h found =
      let (
        tag,
        (e, pair, to, maker, key, account, es, read, event, next, e3, e4, e6, e5, known, says),
      ) =
        decode_pump_instruction-TradeOf f d virtual_init_token init_sol lib dtx i h in
      let no_slot : t.slot ≡ 0 = says.4 in
      let not_newer : ltb r.slot t.slot ≡ false = ground arith in rw found (if_false _ _ not_newer)
