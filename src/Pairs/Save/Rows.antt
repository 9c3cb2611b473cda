-- ===== src/Pairs/Save/Rows.antt =====
-- What a call of `SavePair` leaves in the pair table and what it returns, by the branch it took.
use greet.Base.{
  ℕ, ◌<◌, ◌≤◌, ltb, ◌≡◌, ◌⊎◌, inl, inr, refl, sym, ap, ◌∙◌, Bool, false, ◌||◌, Bool-cases, Option,
  none, some, Error, error_text, Result, ok, err, Floats, Decimals, arith,
}
use greet.Base.Text.{contains}
use greet.Order.Types.{sol_chain_id}
use greet.Pairs.Types.{TradeWithPair, PairRow, Token}
use greet.Pairs.Store.{Found, PairStore}
use greet.Pairs.Save.{
  Saved, is_zero_f, take_init, fill_init, with_trade, renamed, supply_of, new_pair, updated_pair,
  update_pair_db_point, inserted, again, stored, save_found, save_pair, with_amounts,
}

module _ (f : Floats) where
  open f use {F}

  -- Two rows with the key and the id in common.
  abbrev pub SameRow : PairRow F → PairRow F → Type 0
  SameRow r r' = (r'.id ≡ r.id) × (r'.chain_id ≡ r.chain_id) × (r'.address ≡ r.address)

  abbrev pub SameInit : PairRow F → PairRow F → Type 0
  SameInit r r' =
      (r'.init_base_token_amount ≡ r.init_base_token_amount)
      × (r'.init_token_amount ≡ r.init_token_amount)

  -- The row lacks one of its two initial amounts.
  abbrev pub lacks_init : PairRow F → Bool
  lacks_init r = is_zero_f f r.init_base_token_amount || is_zero_f f r.init_token_amount

  take_init-SameRow :
      (trade : TradeWithPair F) (r : PairRow F)
      → SameRow r (take_init f trade r) × ((take_init f trade r).slot ≡ r.slot)
  take_init-SameRow trade r = ground arith

  fill_init-SameRow :
      (trade : TradeWithPair F) (r : PairRow F)
      → SameRow r (fill_init f trade r) × ((fill_init f trade r).slot ≡ r.slot)
  fill_init-SameRow trade r = ground arith

  fill_init_kept :
      (trade : TradeWithPair F) (r : PairRow F) → lacks_init r ≡ false → fill_init f trade r ≡ r
  fill_init_kept trade r h = rw h

  pub new_pair-key :
      (trade : TradeWithPair F) (token : Option (Token F))
      → ((new_pair f trade token).chain_id ≡ sol_chain_id)
        × ((new_pair f trade token).address ≡ trade.pair_addr)
        × ((new_pair f trade token).slot ≡ trade.slot)
  unfolding new_pair
  new_pair-key trade token = ground arith

module _ (f : Floats) (d : Decimals f.F) where
  open f use {F}

  with_amounts-same :
      (trade : TradeWithPair F) (r : PairRow F)
      → SameRow f r (with_amounts f d trade r)
        × ((with_amounts f d trade r).slot ≡ r.slot)
        × SameInit f r (with_amounts f d trade r)
  with_amounts-same trade r = ground arith

  with_trade-same :
      (trade : TradeWithPair F) (supply : F) (r : PairRow F)
      → SameRow f r (with_trade f d trade supply r)
        × ((with_trade f d trade supply r).slot ≡ r.slot)
        × SameInit f r (with_trade f d trade supply r)
  unfolding with_trade
  with_trade-same trade supply r = ((refl, refl, refl), refl, (refl, refl))

  renamed-same :
      (trade : TradeWithPair F) (token : Option (Token F)) (r : PairRow F)
      → SameRow f r (renamed f d trade token r)
        × ((renamed f d trade token r).slot ≡ trade.slot)
        × SameInit f r (renamed f d trade token r)
  unfolding renamed
  renamed-same trade token r = ((refl, refl, refl), refl, (refl, refl))

  -- An update changes no key, no slot, and no initial amounts that are there.
  update_pair_db_point-same :
      (trade : TradeWithPair F) (row : PairRow F) (supply : F)
      → SameRow f row (update_pair_db_point f d trade row supply)
        × ((update_pair_db_point f d trade row supply).slot ≡ row.slot)
        × (lacks_init f row ≡ false → SameInit f row (update_pair_db_point f d trade row supply))
  unfolding update_pair_db_point
  update_pair_db_point-same trade row supply =
      let r1 = fill_init f trade row in
      let r2 = with_trade f d trade supply r1 in
      let ((id1, chain1, address1), slot1) = fill_init-SameRow f trade row in
      let ((id2, chain2, address2), slot2, (base2, init2)) = with_trade-same trade supply r1 in
      let ((id3, chain3, address3), slot3, (base3, init3)) = with_amounts-same trade r2 in
      (
        (id3 ∙ (id2 ∙ id1), chain3 ∙ (chain2 ∙ chain1), address3 ∙ (address2 ∙ address1)),
        slot3 ∙ (slot2 ∙ slot1),
        λ h.
            let kept = fill_init_kept f trade row h in
            (
              base3 ∙ (base2 ∙ ap (λ x. x.init_base_token_amount) kept),
              init3 ∙ (init2 ∙ ap (λ x. x.init_token_amount) kept),
            ),
      )

  pub updated_pair-same :
      (trade : TradeWithPair F) (token : Option (Token F)) (r : PairRow F)
      → SameRow f r (updated_pair f d trade token r)
        × ((updated_pair f d trade token r).slot ≡ trade.slot)
  unfolding updated_pair
  updated_pair-same trade token r =
      let r1 = fill_init f trade r in
      let ((id1, chain1, address1), slot1) = fill_init-SameRow f trade r in
      let ((id2, chain2, address2), slot2, init2) = renamed-same trade token r1 in
      let ((id3, chain3, address3), slot3, init3) =
        update_pair_db_point-same trade (renamed f d trade token r1) (supply_of f token) in
      (
        (id3 ∙ (id2 ∙ id1), chain3 ∙ (chain2 ∙ chain1), address3 ∙ (address2 ∙ address1)),
        slot3 ∙ slot2,
      )

  -- The initial amounts of a row are written once.
  updated_pair_init :
      (trade : TradeWithPair F) (token : Option (Token F)) (r : PairRow F)
      → lacks_init f r ≡ false
      → SameInit f r (updated_pair f d trade token r)
  unfolding updated_pair
  updated_pair_init trade token r h =
      let kept = fill_init_kept f trade r h in
      let row = renamed f d trade token (fill_init f trade r) in
      let (same2, slot2, (base2, init2)) = renamed-same trade token (fill_init f trade r) in
      let base = base2 ∙ ap (λ x. x.init_base_token_amount) kept in
      let init = init2 ∙ ap (λ x. x.init_token_amount) kept in
      let still : lacks_init f row ≡ false =
        ap (λ b. is_zero_f f b || is_zero_f f row.init_token_amount) base
        ∙ (ap (λ b. is_zero_f f r.init_base_token_amount || is_zero_f f b) init ∙ h) in
      let (base3, init3) = (update_pair_db_point-same trade row (supply_of f token)).2 still in
      (base3 ∙ base, init3 ∙ init)

module _ (f : Floats) (d : Decimals f.F) (db : PairStore f.F) where
  open f use {F}
  open db use {S}

  -- The table refused the search, the insertion of the first row, or the update of a row.
  abbrev pub Refusal : TradeWithPair F → Option (Token F) → S → Type 0
  Refusal trade token s =
      ((e : Error) × (db.find sol_chain_id trade.pair_addr s ≡ Found.failed e))
      ⊎ ((e : Error) × (db.insert (new_pair f trade token) s ≡ err e))
      ⊎ ((r : PairRow F) × (e : Error) × (db.find sol_chain_id trade.pair_addr s ≡ Found.found r)
          × (db.update (updated_pair f d trade token r) s ≡ err e))

  -- Nothing is written. An error has a refusal of the table as its cause. Where the call returns a
  -- row it is the one of the table, which is as new as the trade or was inserted by another writer
  -- since the search.
  abbrev pub NotWritten : TradeWithPair F → Option (Token F) → S → Saved F S → Type 0
  NotWritten trade token s x =
      (x.table ≡ s)
      × (((e : Error) × (x.result ≡ err e) × Refusal trade token s)
          ⊎ ((p : PairRow F) × (x.result ≡ ok p)
              × (db.row sol_chain_id trade.pair_addr s ≡ some p)
              × ((trade.slot ≤ p.slot)
                  ⊎ ((e : Error) × (db.insert (new_pair f trade token) s ≡ err e)))))

  -- The table has a new row of the pair, with the trade's slot and market caps.
  abbrev pub Inserted : TradeWithPair F → S → Saved F S → Type 0
  Inserted trade s x =
      (p : PairRow F) × (x.result ≡ ok p)
      × (db.row sol_chain_id trade.pair_addr s ≡ none)
      × (db.row sol_chain_id trade.pair_addr x.table ≡ some p)
      × (p.slot ≡ trade.slot)
      × (x.trade.mcap ≡ p.mkt_cap)
      × (x.trade.fdv ≡ p.fdv)

  -- The row of the pair was older than the trade and has its slot now; initial amounts that it had
  -- are the same.
  abbrev pub Replaced : TradeWithPair F → S → Saved F S → Type 0
  Replaced trade s x =
      (r p : PairRow F) × (x.result ≡ ok p)
      × (db.row sol_chain_id trade.pair_addr s ≡ some r)
      × (r.slot < trade.slot)
      × (db.row sol_chain_id trade.pair_addr x.table ≡ some p)
      × (p.slot ≡ trade.slot)
      × (p.id ≡ r.id)
      × (lacks_init f r ≡ false → SameInit f r p)
      × (x.trade.mcap ≡ p.mkt_cap)
      × (x.trade.fdv ≡ p.fdv)

  abbrev pub SavedBy : TradeWithPair F → Option (Token F) → S → Saved F S → Type 0
  SavedBy trade token s x = NotWritten trade token s x ⊎ (Inserted trade s x ⊎ Replaced trade s x)

  again-NotWritten :
      (trade trade' : TradeWithPair F) (token : Option (Token F)) (s : S) {e : Error}
      → db.insert (new_pair f trade token) s ≡ err e
      → (a : Found F) → db.find_again sol_chain_id trade.pair_addr s ≡ a
      → NotWritten trade token s (again f d db trade' s a)
  again-NotWritten trade trade' token s {e} refused (Found.found r) h =
      (refl, inr (r, refl, (db.find_again_row _ _ s h).0, inr (e, refused)))
  again-NotWritten trade trade' token s {e} refused Found.missing h =
      (refl, inl (_, refl, inr (inl (e, refused))))
  again-NotWritten trade trade' token s {e} refused (Found.failed e') h =
      (refl, inl (e', refl, inr (inl (e, refused))))

  inserted-SavedBy :
      (trade : TradeWithPair F) (token : Option (Token F)) (s : S) (answer : Result (ℕ × S))
      → db.insert (new_pair f trade token) s ≡ answer
      → SavedBy trade token s (inserted f d db trade (new_pair f trade token) s answer)
  unfolding inserted
  inserted-SavedBy trade token s (ok (i, s')) h =
      let (chain, address, slot) = new_pair-key f trade token in
      let (before, after) = db.insert_row (new_pair f trade token) s h in
      inr (
        inl (
          record (new_pair f trade token) { id = i },
          refl,
          cc (before, chain, address),
          cc (after, chain, address),
          slot,
          refl,
          refl,
        ))
  inserted-SavedBy trade token s (err e) h =
      elim (Bool-cases (contains (error_text e) "Duplicate entry")) [
        | inl duplicate ↦ inl (
            rw duplicate (
              again-NotWritten trade _ token s h (db.find_again sol_chain_id trade.pair_addr s)
                refl))
        | inr other ↦ inl (rw other (refl, inl (_, refl, inr (inl (e, h)))))
      ]

  stored-SavedBy :
      (trade : TradeWithPair F) (token : Option (Token F)) (s : S) (r : PairRow F)
      → db.find sol_chain_id trade.pair_addr s ≡ Found.found r
      → r.slot < trade.slot
      → (answer : Result S) → db.update (updated_pair f d trade token r) s ≡ answer
      → SavedBy trade token s (stored f d db trade (updated_pair f d trade token r) s answer)
  unfolding stored
  stored-SavedBy trade token s r h older (err e) u =
      inl (refl, inl (_, refl, inr (inr (r, e, h, u))))
  stored-SavedBy trade token s r h older (ok s') u =
      let r' = updated_pair f d trade token r in
      let (row, chain, address) = db.find_row _ _ s h in
      let ((id', chain', address'), slot) = updated_pair-same f d trade token r in
      let row' : db.row r'.chain_id r'.address s ≡ some r = cc in
      let after : db.row r'.chain_id r'.address s' ≡ some r' =
        db.update_row r' r s u row' (sym id') in
      inr (
        inr
          (r, r', refl, row, older, cc, slot, id', updated_pair_init f d trade token r, refl, refl))

  save_found-SavedBy :
      (trade : TradeWithPair F) (token : Option (Token F)) (s : S) (a : Found F)
      → db.find sol_chain_id trade.pair_addr s ≡ a
      → SavedBy trade token s (save_found f d db trade token a s)
  unfolding save_found
  save_found-SavedBy trade token s (Found.failed e) h = inl (refl, inl (_, refl, inl (e, h)))
  save_found-SavedBy trade token s Found.missing h =
      inserted-SavedBy trade token s (db.insert (new_pair f trade token) s) refl
  save_found-SavedBy trade token s (Found.found r) h = elim (Bool-cases (ltb r.slot trade.slot)) [
    | inl older ↦ rw older (
        stored-SavedBy trade token s r h (ground arith)
          (db.update (updated_pair f d trade token r) s) refl)
    | inr newer ↦ rw newer (inl (refl, inr (r, refl, (db.find_row _ _ s h).0, inl (ground arith))))
  ]

  -- A call of `SavePair` writes nothing and returns an error, where the table refused the search,
  -- the insertion or the update, or a row of the table that is as new as the trade or was just
  -- inserted by another writer; or it inserts the pair's first row; or it
  -- replaces a row whose slot is smaller than the trade's, keeping its id and its initial amounts
  -- if it has both. A written row has the trade's slot, and the trade its market caps.
  pub save_pair-SavedBy :
      (trade : TradeWithPair F) (token : Option (Token F)) (s : S)
      → SavedBy trade token s (save_pair f d db trade token s)
  unfolding save_pair
  save_pair-SavedBy trade token s =
      save_found-SavedBy trade token s (db.find sol_chain_id trade.pair_addr s) refl
