-- ===== src/Blocks/Runs.antt =====
-- Runs of `ProcessBlock`: a block that is processed or skipped stays as it is and its trades are
-- not saved again.
use mathlib.Core.Path.{subst}
use mathlib.Core.Option.{some-injective}
use greet.Base.{
  ℕ, ◌==◌, ◌≡◌, ◌≢◌, refl, sym, ap, ◌∙◌, inl, inr, Bool, true, ◌||◌, Bool-cases, if_true, if_false,
  List, [], ◌∷◌, All, Option, none, some, and_then, and_then-eq_some, Error, error_text, Result, ok,
  err, Floats, Decimals, arith,
}
use greet.Base.Text.{contains}
use greet.Transfers.Types.{Map}
use greet.Transfers.Accounts.{Accounts}
use greet.Transfers.BlockPrice.{get_block_sol_price}
use greet.Pump.{BlockRow}
use greet.Blocks.Process.{
  BlockInfo, FoundBlock, BlockStore, Service, Trades, decode_block, group_by_pair, save_trades,
  block_processed, block_skipped, Processed, unchanged, after_insert, record_block, failed_block,
  no_info, with_info, priced, with_answer, new_block, with_row, process_block,
}

module _ (f : Floats) (d : Decimals f.F) (sv : Service f.F) (db : BlockStore f.F) where
  open f use {F}
  open db use {S}

  abbrev pub is_terminal : BlockRow F → Bool
  is_terminal b = b.status == block_processed || b.status == block_skipped

  after_insert-other :
      (b : BlockRow F) (s : S) (k : ℕ)
      → b.slot ≢ k
      → (answer : Result S) → db.insert b s ≡ answer
      → db.row k (after_insert f d sv db s answer) ≡ db.row k s
  after_insert-other b s k other (ok s') h = db.insert_other b s k h other
  after_insert-other b s k other (err e) h = refl

  record_block-other :
      (b : BlockRow F) (s : S) (saved : Map (Trades f d sv)) (k : ℕ)
      → b.slot ≢ k
      → db.row k (record_block f d sv db b s saved).table ≡ db.row k s
  record_block-other b s saved k other = after_insert-other b s k other (db.insert b s) refl

  no_info-other :
      (b : BlockRow F) (e : Error) (s : S) (k : ℕ)
      → b.slot ≢ k
      → db.row k (no_info f d sv db b e s).table ≡ db.row k s
  no_info-other b e s k other = elim (Bool-cases (contains (error_text e) "was skipped")) [
    | inl skipped ↦
        rw skipped (record_block-other (record b { status = block_skipped }) s [] k other)
    | inr lost ↦ rw lost (record_block-other (failed_block f d sv db b) s [] k other)
  ]

  priced-other :
      (b : BlockRow F) (info : BlockInfo) (s : S) (r : F × Accounts) (k : ℕ)
      → b.slot ≢ k
      → {x : Processed f d sv db} → priced f d sv db b info s r ≡ some x
      → db.row k x.table ≡ db.row k s
  priced-other b info s (price, m) k other h = elim (Bool-cases (f.eq_f price f.zero_f)) [
    | inl nothing ↦ ap (λ y. db.row k y.table) (some-injective _ _ (sym h ∙ if_true _ _ nothing))
    | inr priced_block ↦
        let (ts, decoded, h1) =
          and_then-eq_some
            (decode_block f d sv (record b { sol_price = price }) price m info.transactions) _
            (sym (if_false _ _ priced_block) ∙ h) in
        ap (λ y. db.row k y.table) (sym (some-injective _ _ h1))
        ∙ record_block-other (record b { sol_price = price }) s
            (save_trades f d sv (group_by_pair f d sv ts [])) k other
  ]

  with_answer-other :
      (b : BlockRow F) (s : S) (k : ℕ)
      → b.slot ≢ k
      → (answer : Result (Option BlockInfo)) {x : Processed f d sv db}
      → with_answer f d sv db b s answer ≡ some x
      → db.row k x.table ≡ db.row k s
  with_answer-other b s k other (err e) h =
      ap (λ y. db.row k y.table) (sym (some-injective _ _ h)) ∙ no_info-other b e s k other
  with_answer-other b s k other (ok none) h =
      ap (λ y. db.row k y.table) (sym (some-injective _ _ h))
      ∙ record_block-other (failed_block f d sv db b) s [] k other
  with_answer-other b s k other (ok (some info)) h =
      let (r, price, h1) =
        and_then-eq_some
          (get_block_sol_price f sv.text_of sv.remembered (db.near info.parent_slot s)
            info.transactions [])
          _ h in
      priced-other (with_info f d sv db b info) info s r k other h1

  -- A run for another slot leaves the row.
  with_row-other :
      (slot : ℕ) (s : S) (k : ℕ)
      → slot ≢ k
      → (a : FoundBlock F) → db.find slot s ≡ a
      → {x : Processed f d sv db} → with_row f d sv db slot s a ≡ some x
      → db.row k x.table ≡ db.row k s
  with_row-other slot s k other (FoundBlock.failed e) a h =
      ap (λ y. db.row k y.table) (sym (some-injective _ _ h))
  with_row-other slot s k other FoundBlock.missing a h =
      with_answer-other (new_block f d sv db slot) s k other (sv.block_info slot) h
  with_row-other slot s k other (FoundBlock.found b) a h = elim (Bool-cases (is_terminal b)) [
    | inl final ↦ ap (λ y. db.row k y.table) (some-injective _ _ (sym h ∙ if_true _ _ final))
    | inr open_block ↦
        with_answer-other b s k (λ q. other (sym (db.find_row slot s a).1 ∙ q)) (sv.block_info slot)
          (sym (if_false _ _ open_block) ∙ h)
  ]

  -- A run for the slot of a terminal row does nothing.
  with_row_terminal :
      (slot : ℕ) (s : S) {b : BlockRow F}
      → db.row slot s ≡ some b
      → is_terminal b ≡ true
      → (a : FoundBlock F) → db.find slot s ≡ a
      → with_row f d sv db slot s a ≡ some (unchanged f d sv db s)
  with_row_terminal slot s r final (FoundBlock.failed e) a = refl
  with_row_terminal slot s r final FoundBlock.missing a = absurd (cc (db.find_missing slot s a, r))
  with_row_terminal slot s r final (FoundBlock.found b') a =
      let same = some-injective _ _ (sym (db.find_row slot s a).0 ∙ r) in
      if_true _ _ (ap is_terminal same ∙ final)

  -- A run keeps a terminal row and, for its slot, saves nothing.
  process_block-terminal :
      (slot k : ℕ) (s : S) {b : BlockRow F} {x : Processed f d sv db}
      → db.row k s ≡ some b
      → is_terminal b ≡ true
      → process_block f d sv db slot s ≡ some x
      → (db.row k x.table ≡ some b) × (slot ≡ k → x.saved ≡ [])
  unfolding process_block
  process_block-terminal slot k s {b} {x} r final h = elim (Bool-cases (slot == 0)) [
    | inl zero_slot ↦
        let same = some-injective _ _ (sym (if_true _ _ zero_slot) ∙ h) in
        (ap (λ y. db.row k y.table) (sym same) ∙ r, λ _. ap (λ y. y.saved) (sym same))
    | inr real ↦
        let h1 = sym (if_false _ _ real) ∙ h in
        elim (Bool-cases (slot == k)) [
          | inl own ↦
              let q : slot ≡ k = ground arith in
              let r' : db.row slot s ≡ some b = rw q r in
              let same =
                some-injective _ _
                  (sym (with_row_terminal slot s r' final (db.find slot s) refl) ∙ h1) in
              (ap (λ y. db.row k y.table) (sym same) ∙ r, λ _. ap (λ y. y.saved) (sym same))
          | inr differ ↦
              let other : slot ≢ k = λ q. absurd (ground arith) in
              (with_row-other slot s k other (db.find slot s) refl h1 ∙ r, λ q. absurd (other q))
        ]
  ]

  -- Runs one after the other, and what each handed over to be saved, by slot.
  abbrev pub process_blocks : List ℕ → S → Option (S × List (ℕ × Map (Trades f d sv)))
  process_blocks [] s = some (s, [])
  process_blocks (slot ∷ slots) s =
      and_then (process_block f d sv db slot s)
        λ x. and_then (process_blocks slots x.table) (λ r. some (r.0, (slot, x.saved) ∷ r.1))

  -- Once a block is recorded as processed or skipped, any further runs, for any slots, leave its
  -- row as it is, and those for its slot hand over no trades: its trades are saved at most once.
  pub process_blocks-terminal :
      (slots : List ℕ) (k : ℕ) (s : S) {b : BlockRow F} {s' : S}
      {log : List (ℕ × Map (Trades f d sv))}
      → db.row k s ≡ some b
      → is_terminal b ≡ true
      → process_blocks slots s ≡ some (s', log)
      → (db.row k s' ≡ some b) × All (λ e. e.0 ≡ k → e.1 ≡ []) log
  process_blocks-terminal [] k s r final h =
      let q = some-injective _ _ h in
      (ap (λ y. db.row k y.0) (sym q) ∙ r, subst (λ y. All (λ e. e.0 ≡ k → e.1 ≡ []) y.1) q tt)
  process_blocks-terminal (slot ∷ slots) k s r final h =
      let (x, run, h1) = and_then-eq_some (process_block f d sv db slot s) _ h in
      let ((s2, log2), rest, h2) = and_then-eq_some (process_blocks slots x.table) _ h1 in
      let (row, silent) = process_block-terminal slot k s r final run in
      let (row', silent') = process_blocks-terminal slots k x.table row final rest in
      let q = some-injective _ _ h2 in
      (
        ap (λ y. db.row k y.0) (sym q) ∙ row',
        subst (λ y. All (λ e. e.0 ≡ k → e.1 ≡ []) y.1) q (silent, silent'),
      )
