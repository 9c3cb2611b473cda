-- ===== src/Pairs/Save/Slots.antt =====
-- The slots of the pair table: they never decrease while calls of `SavePair` run one after the
-- other, and they can when two of them interleave.
use mathlib.Core.Path.{subst}
use greet.Base.{
  ℕ, ◌<◌, ◌≤◌, ltb, ◌≡◌, ◌≢◌, inl, inr, refl, sym, ap, ◌∙◌, String, true, Bool-cases, List, [], ◌∷◌,
  error_text, Option, some, Result, ok, err, Floats, Decimals, arith, str_eq, eq_iff,
}
use greet.Base.Text.{contains}
use greet.Order.Types.{sol_chain_id}
use greet.Pairs.Types.{TradeWithPair, PairRow, Token}
use greet.Pairs.Store.{Found, PairStore}
use greet.Pairs.Save.{Saved, new_pair, updated_pair, inserted, again, stored, save_found, save_pair}
use greet.Pairs.Save.Rows.{SavedBy, save_pair-SavedBy, new_pair-key, updated_pair-same}

module _ (f : Floats) (d : Decimals f.F) (db : PairStore f.F) where
  open f use {F}
  open db use {S}

  -- The row of an address is still there, with a slot that is not smaller.
  abbrev pub KeepsSlot : String → S → S → Type 0
  KeepsSlot a s s' =
      (r : PairRow F)
      → db.row sol_chain_id a s ≡ some r
      → (r' : PairRow F) × (db.row sol_chain_id a s' ≡ some r') × (r.slot ≤ r'.slot)

  own-KeepsSlot :
      (trade : TradeWithPair F) (token : Option (Token F)) (s : S) (x : Saved F S)
      → SavedBy f d db trade token s x
      → KeepsSlot trade.pair_addr s x.table
  own-KeepsSlot trade token s x (inl (same, _)) r h = (r, cc, omega arith)
  own-KeepsSlot trade token s x (inr (inl (p, _, before, _, _, _, _))) r h = absurd cc
  own-KeepsSlot trade token s x (inr (inr (old, p, _, row, older, after, slot, _, _, _, _))) r h =
      (p, after, ground arith)

  again-table : (trade : TradeWithPair F) (s : S) (a : Found F) → (again f d db trade s a).table ≡ s
  again-table trade s (Found.found r) = refl
  again-table trade s Found.missing = refl
  again-table trade s (Found.failed e) = refl

  inserted-other :
      (trade : TradeWithPair F) (token : Option (Token F)) (a : String) (s : S)
      → trade.pair_addr ≢ a
      → (answer : Result (ℕ × S)) → db.insert (new_pair f trade token) s ≡ answer
      → db.row sol_chain_id a (inserted f d db trade (new_pair f trade token) s answer).table
        ≡ db.row sol_chain_id a s
  unfolding inserted
  inserted-other trade token a s other (ok (i, s')) h =
      let (chain, address, slot) = new_pair-key f trade token in
      db.insert_other (new_pair f trade token) s sol_chain_id a h
        (λ same. other (sym address ∙ same))
  inserted-other trade token a s other (err e) h =
      ap (db.row sol_chain_id a) (elim (Bool-cases (contains (error_text e) "Duplicate entry")) [
        | inl duplicate ↦
            rw duplicate (again-table _ s (db.find_again sol_chain_id trade.pair_addr s))
        | inr refused ↦ rw refused refl
      ])

  stored-other :
      (trade : TradeWithPair F) (token : Option (Token F)) (a : String) (s : S) (r : PairRow F)
      → db.find sol_chain_id trade.pair_addr s ≡ Found.found r
      → trade.pair_addr ≢ a
      → (answer : Result S) → db.update (updated_pair f d trade token r) s ≡ answer
      → db.row sol_chain_id a (stored f d db trade (updated_pair f d trade token r) s answer).table
        ≡ db.row sol_chain_id a s
  unfolding stored
  stored-other trade token a s r h other (err e) u = refl
  stored-other trade token a s r h other (ok s') u =
      let r' = updated_pair f d trade token r in
      let (row, chain, address) = db.find_row _ _ s h in
      let ((id', chain', address'), slot) = updated_pair-same f d trade token r in
      let row' : db.row r'.chain_id r'.address s ≡ some r = cc in
      db.update_other r' r s sol_chain_id a u row' (sym id')
        (λ same. other (sym (address' ∙ address) ∙ same))

  save_found-other :
      (trade : TradeWithPair F) (token : Option (Token F)) (a : String) (s : S)
      → trade.pair_addr ≢ a
      → (x : Found F) → db.find sol_chain_id trade.pair_addr s ≡ x
      → db.row sol_chain_id a (save_found f d db trade token x s).table ≡ db.row sol_chain_id a s
  unfolding save_found
  save_found-other trade token a s other (Found.failed e) h = refl
  save_found-other trade token a s other Found.missing h =
      inserted-other trade token a s other (db.insert (new_pair f trade token) s) refl
  save_found-other trade token a s other (Found.found r) h =
      elim (Bool-cases (ltb r.slot trade.slot)) [
        | inl older ↦ rw older (
            stored-other trade token a s r h other (db.update (updated_pair f d trade token r) s)
              refl)
        | inr newer ↦ rw newer refl
      ]

  pub save_pair-KeepsSlot :
      (trade : TradeWithPair F) (token : Option (Token F)) (a : String) (s : S)
      → KeepsSlot a s (save_pair f d db trade token s).table
  unfolding save_pair
  save_pair-KeepsSlot trade token a s = elim (Bool-cases (str_eq trade.pair_addr a)) [
    | inl same ↦
        subst (λ b. KeepsSlot b s (save_pair f d db trade token s).table)
          ((eq_iff trade.pair_addr a).0 same)
          (own-KeepsSlot trade token s (save_pair f d db trade token s)
            (save_pair-SavedBy f d db trade token s))
    | inr differ ↦ λ r h. (
      r,
      save_found-other trade token a s (λ e. absurd (cc ((eq_iff trade.pair_addr a).1 e, differ)))
            (db.find sol_chain_id trade.pair_addr s) refl
          ∙ h,
      omega arith,
    )
  ]

  -- The table after calls of `SavePair`, one after the other.
  abbrev pub save_pairs : List (TradeWithPair F × Option (Token F)) → S → S
  save_pairs [] s = s
  save_pairs ((trade, token) ∷ rest) s = save_pairs rest (save_pair f d db trade token s).table

  -- While calls of `SavePair` for any trades and pairs run one after the other, no row of the pair
  -- table is lost and no row's slot decreases.
  pub save_pairs-KeepsSlot :
      (calls : List (TradeWithPair F × Option (Token F))) (a : String) (s : S) (r : PairRow F)
      → db.row sol_chain_id a s ≡ some r
      → (r' : PairRow F) × (db.row sol_chain_id a (save_pairs calls s) ≡ some r')
        × (r.slot ≤ r'.slot)
  save_pairs-KeepsSlot [] a s r h = (r, h, omega arith)
  save_pairs-KeepsSlot ((trade, token) ∷ rest) a s r h =
      let (r1, h1, le1) = save_pair-KeepsSlot trade token a s r h in
      let (r2, h2, le2) =
        save_pairs-KeepsSlot rest a (save_pair f d db trade token s).table r1 h1 in
      (r2, h2, omega (arith, le1, le2))

  -- Where a trade t and a newer trade u of the same pair both find the pair's row, and the table
  -- takes u's row and then t's, the row ends with the smaller slot, of t: the two calls check the
  -- slot before they write and nothing holds the row in between.
  pub late_write_lowers_slot :
      (t u : TradeWithPair F) (token : Option (Token F)) (s : S) (r : PairRow F)
      → db.find sol_chain_id t.pair_addr s ≡ Found.found r
      → u.pair_addr ≡ t.pair_addr
      → r.slot < t.slot
      → t.slot < u.slot
      → ((p : PairRow F) (s1 : S) → (s' : S) × (db.update p s1 ≡ ok s'))
      → let first = save_found f d db u token (Found.found r) s in
        let second = save_found f d db t token (Found.found r) first.table in
        (p q : PairRow F) × (db.row sol_chain_id t.pair_addr first.table ≡ some p)
        × (p.slot ≡ u.slot)
        × (db.row sol_chain_id t.pair_addr second.table ≡ some q)
        × (q.slot ≡ t.slot)
        × (q.slot < p.slot)
  unfolding save_found stored
  late_write_lowers_slot t u token s r h pair older newer works =
      let (row, chain, address) = db.find_row _ _ s h in
      let u' = updated_pair f d u token r in
      let t' = updated_pair f d t token r in
      let ((id_u, chain_u, address_u), slot_u) = updated_pair-same f d u token r in
      let ((id_t, chain_t, address_t), slot_t) = updated_pair-same f d t token r in
      let (s1, up1) = works u' s in
      let (s2, up2) = works t' s1 in
      let lt_u : ltb r.slot u.slot ≡ true = ground arith in
      let lt_t : ltb r.slot t.slot ≡ true = ground arith in
      let row_u : db.row u'.chain_id u'.address s ≡ some r = cc in
      let after_u : db.row u'.chain_id u'.address s1 ≡ some u' =
        db.update_row u' r s up1 row_u (sym id_u) in
      let row_t : db.row t'.chain_id t'.address s1 ≡ some u' = cc in
      let after_t : db.row t'.chain_id t'.address s2 ≡ some t' =
        db.update_row t' u' s1 up2 row_t cc in
      (
        u',
        t',
        rw lt_u (rw up1 cc),
        slot_u,
        rw lt_u (rw up1 (rw lt_t (rw up2 cc))),
        slot_t,
        omega (arith, slot_u, slot_t, newer),
      )
