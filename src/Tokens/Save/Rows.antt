-- ===== src/Tokens/Save/Rows.antt =====
-- What a call of `SaveToken` leaves in the token table and what it returns.
use mathlib.Core.Path.{subst}
use mathlib.Core.Option.{some-injective}
use greet.Base.{
  ℕ, ◌≡◌, refl, sym, ap, ◌∙◌, ◌⊎◌, inl, inr, String, str_eq, Bool-cases, if_true, if_false, Option,
  none, some, and_then-eq_some, Error, error_text, Result, ok, err, Floats, Decimals,
}
use greet.Base.Text.{contains}
use greet.Order.Types.{sol_chain_id}
use greet.Transfers.Types.{program_token, program_token2022}
use greet.Pairs.Types.{TradeWithPair, Token}
use greet.Tokens.Types.{Web, FoundToken, TokenStore}
use greet.Tokens.Uri.{Got}
use greet.Tokens.Info.{
  get_token_program, get_token_total_supply, get_token_info, get_token2022_info,
}
use greet.Tokens.Save.{
  Changed, with_texts, SavedToken, refreshed, first_token, first_supply, first_info,
  with_first_program, new_token, after_token_update, updated_token, found_again, inserted_token,
  save_found_token, save_token,
}
use greet.Tokens.Save.Kept.{KeptToken, Stage, unmarked, refreshed-Stage}

module _ (f : Floats) where
  open f use {F}

  -- The first row of the token of a trade.
  abbrev pub FirstOf : TradeWithPair F → Token F → Type 0
  FirstOf trade t =
      (t.chain_id ≡ sol_chain_id)
      × (t.address ≡ trade.pair_info.token_addr)
      × (t.decimals ≡ trade.pair_info.token_decimal)
      × (t.slot ≡ trade.slot)

  abbrev FirstTo : TradeWithPair F → Option (Token F) → Type 0
  FirstTo trade none = Unit
  FirstTo trade (some t) = FirstOf trade t

module _ (f : Floats) (d : Decimals f.F) (web : Web) where
  open f use {F}

  first_info-FirstTo :
      (trade : TradeWithPair F) (g : Option Got) (t : Token F)
      → FirstOf f trade t
      → FirstTo f trade (first_info f d web g t)
  first_info-FirstTo trade none t h = tt
  first_info-FirstTo trade (some g) t h =
      elim g.info as (λ o. FirstOf f trade (elim o [ none ↦ t | some i ↦ with_texts i t ])) [
        | none ↦ h
        | some i ↦ h
      ]

  with_first_program-FirstTo :
      (trade : TradeWithPair F) (p : String) (t : Token F)
      → FirstOf f trade t
      → FirstTo f trade (with_first_program f d web p t)
  with_first_program-FirstTo trade p t h = elim (Bool-cases (str_eq p program_token2022)) [
    | inl new ↦ subst (FirstTo f trade) (sym (if_true _ _ new)) (
        first_info-FirstTo trade (get_token2022_info web t.address)
          (record t { program = program_token2022 }) h)
    | inr old ↦ subst (FirstTo f trade) (sym (if_false _ _ old)) (
        first_info-FirstTo trade (get_token_info web t.address)
          (record t { program = program_token }) h)
  ]

  first_supply-FirstOf :
      (trade : TradeWithPair F) (r : Result d.D)
      → FirstOf f trade (first_supply f d web r (first_token f d web trade))
  first_supply-FirstOf trade (ok supply) = (refl, refl, refl, refl)
  first_supply-FirstOf trade (err e) = (refl, refl, refl, refl)

  new_token-FirstOf :
      (trade : TradeWithPair F) {t : Token F} → new_token f d web trade ≡ some t → FirstOf f trade t
  unfolding new_token
  new_token-FirstOf trade h = subst (FirstTo f trade) h (
      with_first_program-FirstTo trade (get_token_program web trade.pair_info.token_addr).0
        (first_supply f d web (get_token_total_supply web d trade.pair_info.token_addr)
          (first_token f d web trade))
        (first_supply-FirstOf trade (get_token_total_supply web d trade.pair_info.token_addr)))

module _ (f : Floats) (d : Decimals f.F) (web : Web) (db : TokenStore f.F) where
  open f use {F}
  open db use {S}

  abbrev row_of : TradeWithPair F → S → Option (Token F)
  row_of trade s = db.row sol_chain_id trade.pair_info.token_addr s

  -- The table had the token; what is known of it is kept, and its row is the token that is returned
  -- unless the table refused the update.
  abbrev pub Refreshed : TradeWithPair F → S → SavedToken F S → Type 0
  Refreshed trade s x =
      (t t' : Token F) × (row_of trade s ≡ some t)
      × (x.result ≡ ok t')
      × KeptToken f t t'
      × ((row_of trade x.table ≡ some t')
          ⊎ ((x.table ≡ s) × (e : Error) × (db.update t' s ≡ err e)))

  -- The table did not have the token and has its first row now, which is returned.
  abbrev pub Inserted : TradeWithPair F → S → SavedToken F S → Type 0
  Inserted trade s x =
      (t : Token F) × (row_of trade s ≡ none)
      × (x.result ≡ ok t)
      × FirstOf f trade t
      × (row_of trade x.table ≡ some t)

  -- The table refused the insertion of a first row of the token.
  abbrev pub RefusedFirst : TradeWithPair F → S → Type 0
  RefusedFirst trade s = (t : Token F) × (e : Error) × FirstOf f trade t × (db.insert t s ≡ err e)

  -- Nothing is written, since the search failed and its error is returned, or the insertion was
  -- refused, and an error is returned or the row of another writer.
  abbrev pub NotWritten : TradeWithPair F → S → SavedToken F S → Type 0
  NotWritten trade s x =
      (x.table ≡ s)
      × (((e : Error) × (x.result ≡ err e)
            × (((e' : Error) × (db.find sol_chain_id trade.pair_info.token_addr s
                    ≡ FoundToken.failed e'))
                ⊎ RefusedFirst trade s))
          ⊎ ((t : Token F) × (x.result ≡ ok t)
              × RefusedFirst trade s
              × (t.chain_id ≡ sol_chain_id)
              × (t.address ≡ trade.pair_info.token_addr)))

  abbrev pub TokenSaved : TradeWithPair F → S → SavedToken F S → Type 0
  TokenSaved trade s x = Refreshed trade s x ⊎ Inserted trade s x ⊎ NotWritten trade s x

  after_token_update-row :
      (trade : TradeWithPair F) (s : S) (t t' : Token F)
      → db.find sol_chain_id trade.pair_info.token_addr s ≡ FoundToken.found t
      → KeptToken f t t'
      → (answer : Result S) → db.update t' s ≡ answer
      → (row_of trade (after_token_update f d web db s answer) ≡ some t')
        ⊎ ((after_token_update f d web db s answer ≡ s) × (e : Error) × (db.update t' s ≡ err e))
  after_token_update-row trade s t t' found kept (err e) u = inr (refl, e, u)
  after_token_update-row trade s t t' found kept (ok s') u =
      let (row, chain, address) = db.find_row _ _ s found in
      let chain' = kept.chain_id ∙ chain in
      let address' = kept.address ∙ address in
      let row' : db.row t'.chain_id t'.address s ≡ some t = cc in
      let after : db.row t'.chain_id t'.address s' ≡ some t' =
        db.update_row t' t s u row' (sym kept.id) in
      inl (cc)

  updated_token-Refreshed :
      (trade : TradeWithPair F) (s : S) (t : Token F) (c : Changed F)
      → db.find sol_chain_id trade.pair_info.token_addr s ≡ FoundToken.found t
      → Stage f (unmarked f d web t) c
      → Refreshed trade s (updated_token f d web db s c)
  updated_token-Refreshed trade s t c found stage =
      let kept = stage.kept in
      let (row, chain, address) = db.find_row _ _ s found in
      elim (Bool-cases c.change) [
        | inr same ↦ (
          t,
          c.token,
          row,
          refl,
          kept,
          inl (
              ap (row_of trade) (if_false _ _ same)
              ∙ row
              ∙ ap some (sym (stage.same_token same).0)),
        )
        | inl changed ↦ (
          t,
          c.token,
          row,
          refl,
          kept,
          subst
              (λ tb.
                (row_of trade tb ≡ some c.token)
                ⊎ ((tb ≡ s) × (e : Error) × (db.update c.token s ≡ err e)))
              (sym (if_true _ _ changed))
              (after_token_update-row trade s t c.token found kept (db.update c.token s) refl),
        )
      ]

  found_again-NotWritten :
      (trade : TradeWithPair F) (s : S) (a : FoundToken F)
      → RefusedFirst trade s
      → db.find_again sol_chain_id trade.pair_info.token_addr s ≡ a
      → NotWritten trade s (found_again f d web db s a)
  found_again-NotWritten trade s (FoundToken.found t) refused h =
      let (chain, address) = db.find_again_key _ _ s h in
      (refl, inr (t, refl, refused, chain, address))
  found_again-NotWritten trade s FoundToken.missing refused h =
      (refl, inl (Error.other "record not found", refl, inr refused))
  found_again-NotWritten trade s (FoundToken.failed e) refused h =
      (refl, inl (e, refl, inr refused))

  inserted_token-TokenSaved :
      (trade : TradeWithPair F) (s : S) (t : Token F) (answer : Result (ℕ × S))
      → db.insert t s ≡ answer
      → FirstOf f trade t
      → TokenSaved trade s (inserted_token f d web db trade t s answer)
  inserted_token-TokenSaved trade s t (ok (i, s')) h (chain, address, decimals, slot) =
      let (absent, after) = db.insert_row t s h in
      inr (inl (record t { id = i }, cc, refl, (chain, address, decimals, slot), cc))
  inserted_token-TokenSaved trade s t (err e) h first =
      elim (Bool-cases (contains (error_text e) "Duplicate entry")) [
        | inl duplicate ↦ inr (
            inr (
              subst (NotWritten trade s) (sym (if_true _ _ duplicate)) (
                found_again-NotWritten trade s
                  (db.find_again sol_chain_id trade.pair_info.token_addr s) (t, e, first, h) refl)))
        | inr refused ↦ inr (
            inr (
              subst (NotWritten trade s) (sym (if_false _ _ refused))
                (refl, inl (e, refl, inr (t, e, first, h)))))
      ]

  save_found_token-TokenSaved :
      (trade : TradeWithPair F) (s : S) (a : FoundToken F)
      → db.find sol_chain_id trade.pair_info.token_addr s ≡ a
      → {x : SavedToken F S} → save_found_token f d web db trade s a ≡ some x
      → TokenSaved trade s x
  save_found_token-TokenSaved trade s (FoundToken.found t) found h =
      let (c, fresh, same) = and_then-eq_some (refreshed f d web trade t) _ h in
      subst (TokenSaved trade s) (some-injective _ _ same)
        (inl (updated_token-Refreshed trade s t c found (refreshed-Stage f d web trade t fresh)))
  save_found_token-TokenSaved trade s FoundToken.missing found h =
      let (t, first, same) = and_then-eq_some (new_token f d web trade) _ h in
      subst (TokenSaved trade s) (some-injective _ _ same) (
        inserted_token-TokenSaved trade s t (db.insert t s) refl
          (new_token-FirstOf f d web trade first))
  save_found_token-TokenSaved trade s (FoundToken.failed e) found h =
      subst (TokenSaved trade s) (some-injective _ _ h)
        (inr (inr (refl, inl (_, refl, inl (e, found)))))

  -- A call of `SaveToken` that does not panic finds the token of the trade, keeps what is known of
  -- it (its key and decimals; slot, supply and program if it has them; its texts if it has a symbol
  -- and a name) and returns the token that is its row now, unless the table refused the update; or
  -- inserts and returns the first row of the token; or writes nothing, since the search failed or
  -- the table refused the first row, and returns an error or, after a refusal, the row of another
  -- writer with the token's key.
  pub save_token-TokenSaved :
      (trade : TradeWithPair F) (s : S) (x : SavedToken F S)
      → save_token f d web db trade s ≡ some x
      → TokenSaved trade s x
  unfolding save_token
  save_token-TokenSaved trade s x h =
      save_found_token-TokenSaved trade s (db.find sol_chain_id trade.pair_info.token_addr s) refl h
