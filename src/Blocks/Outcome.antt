-- ===== src/Blocks/Outcome.antt =====
-- How a run of `ProcessBlock` ends: the status that it records, or nothing.
use mathlib.Core.Path.{subst}
use mathlib.Core.Option.{some-injective}
use greet.Base.{
  ℕ, ◌==◌, ◌≡◌, refl, sym, ap, ◌∙◌, ◌⊎◌, inl, inr, false, Bool-cases, if_true, if_false, [], Option,
  none, some, and_then-eq_some, Error, error_text, Result, ok, err, Floats, Decimals,
}
use greet.Base.Text.{contains}
use greet.Transfers.Types.{Map}
use greet.Transfers.Accounts.{Accounts}
use greet.Transfers.BlockPrice.{get_block_sol_price}
use greet.Pump.{BlockRow}
use greet.Blocks.Process.{
  BlockInfo, FoundBlock, BlockStore, Service, Trades, decode_block, group_by_pair, save_trades,
  block_processed, block_skipped, block_failed, Processed, unchanged, after_insert, record_block,
  failed_block, no_info, with_info, priced, with_answer, new_block, with_row, process_block,
}
use greet.Blocks.Runs.{is_terminal}

module _ (f : Floats) (d : Decimals f.F) (sv : Service f.F) (db : BlockStore f.F) where
  open f use {F}
  open db use {S}

  -- A processed block has a price that is not zero; another one comes with no trades.
  abbrev pub Ended : BlockRow F → Map (Trades f d sv) → Type 0
  Ended b saved =
      ((b.status ≡ block_processed) × (f.eq_f b.sol_price f.zero_f ≡ false))
      ⊎ (((b.status ≡ block_failed) ⊎ (b.status ≡ block_skipped)) × (saved ≡ []))

  -- The row is in the table, or the table refused it and is as before.
  abbrev pub Written : BlockRow F → ℕ → S → S → Type 0
  Written b slot s s' =
      (db.row slot s' ≡ some b) ⊎ ((s' ≡ s) × (e : Error) × (db.insert b s ≡ err e))

  abbrev pub Recorded : ℕ → S → Processed f d sv db → Type 0
  Recorded slot s x =
      (b : BlockRow F) × (b.slot ≡ slot) × Ended b x.saved × Written b slot s x.table

  abbrev pub Outcome : ℕ → S → Processed f d sv db → Type 0
  Outcome slot s x = (x ≡ unchanged f d sv db s) ⊎ Recorded slot s x

  after_insert-Written :
      (b : BlockRow F) (slot : ℕ) (s : S)
      → b.slot ≡ slot
      → (answer : Result S) → db.insert b s ≡ answer
      → Written b slot s (after_insert f d sv db s answer)
  after_insert-Written b slot s q (ok s') h =
      inl (ap (λ k. db.row k s') (sym q) ∙ db.insert_row b s h)
  after_insert-Written b slot s q (err e) h = inr (refl, e, h)

  record_block-Recorded :
      (b : BlockRow F) (slot : ℕ) (s : S) (saved : Map (Trades f d sv))
      → b.slot ≡ slot
      → Ended b saved
      → Recorded slot s (record_block f d sv db b s saved)
  record_block-Recorded b slot s saved q ended =
      (b, q, ended, after_insert-Written b slot s q (db.insert b s) refl)

  no_info-Recorded :
      (b : BlockRow F) (e : Error) (slot : ℕ) (s : S)
      → b.slot ≡ slot
      → Recorded slot s (no_info f d sv db b e s)
  no_info-Recorded b e slot s q = elim (Bool-cases (contains (error_text e) "was skipped")) [
    | inl skipped ↦ rw skipped (
        record_block-Recorded (record b { status = block_skipped }) slot s [] q
          (inr (inr refl, refl)))
    | inr lost ↦
        rw lost
          (record_block-Recorded (failed_block f d sv db b) slot s [] q (inr (inl refl, refl)))
  ]

  priced-Outcome :
      (b : BlockRow F) (info : BlockInfo) (slot : ℕ) (s : S) (r : F × Accounts)
      {x : Processed f d sv db}
      → b.slot ≡ slot
      → b.status ≡ block_processed
      → priced f d sv db b info s r ≡ some x
      → Outcome slot s x
  priced-Outcome b info slot s (price, m) {x} q status h =
      elim (Bool-cases (f.eq_f price f.zero_f)) [
        | inl nothing ↦ inl (sym (some-injective _ _ (sym (if_true _ _ nothing) ∙ h)))
        | inr priced_block ↦
            let b' = record b { sol_price = price } in
            let (ts, decoded, h1) =
              and_then-eq_some (decode_block f d sv b' price m info.transactions) _
                (sym (if_false _ _ priced_block) ∙ h) in
            inr (
              subst (Recorded slot s) (some-injective _ _ h1) (
                record_block-Recorded b' slot s (save_trades f d sv (group_by_pair f d sv ts [])) q
                  (inl (status, priced_block))))
      ]

  with_answer-Outcome :
      (b : BlockRow F) (slot : ℕ) (s : S) (answer : Result (Option BlockInfo))
      {x : Processed f d sv db}
      → b.slot ≡ slot
      → with_answer f d sv db b s answer ≡ some x
      → Outcome slot s x
  with_answer-Outcome b slot s (err e) q h =
      inr (subst (Recorded slot s) (some-injective _ _ h) (no_info-Recorded b e slot s q))
  with_answer-Outcome b slot s (ok none) q h = inr (
      subst (Recorded slot s) (some-injective _ _ h)
        (record_block-Recorded (failed_block f d sv db b) slot s [] q (inr (inl refl, refl))))
  with_answer-Outcome b slot s (ok (some info)) q h =
      let (r, price, h1) =
        and_then-eq_some
          (get_block_sol_price f sv.text_of sv.remembered (db.near info.parent_slot s)
            info.transactions [])
          _ h in
      priced-Outcome (with_info f d sv db b info) info slot s r q refl h1

  with_row-Outcome :
      (slot : ℕ) (s : S) (a : FoundBlock F) {x : Processed f d sv db}
      → db.find slot s ≡ a
      → with_row f d sv db slot s a ≡ some x
      → Outcome slot s x
  with_row-Outcome slot s (FoundBlock.failed e) a h = inl (sym (some-injective _ _ h))
  with_row-Outcome slot s FoundBlock.missing a h =
      with_answer-Outcome (new_block f d sv db slot) slot s (sv.block_info slot) refl h
  with_row-Outcome slot s (FoundBlock.found b) a h = elim (Bool-cases (is_terminal f d sv db b)) [
    | inl final ↦ inl (sym (some-injective _ _ (sym (if_true _ _ final) ∙ h)))
    | inr open_block ↦
        with_answer-Outcome b slot s (sv.block_info slot) (db.find_row slot s a).1
          (sym (if_false _ _ open_block) ∙ h)
  ]

  -- A run that returns changes nothing and saves no trades, or it writes the slot's row (unless the
  -- table refuses it): as processed, with a price that is not zero, or as failed or skipped, and
  -- then it saves no trades.
  pub process_block-Outcome :
      (slot : ℕ) (s : S) {x : Processed f d sv db}
      → process_block f d sv db slot s ≡ some x
      → Outcome slot s x
  unfolding process_block
  process_block-Outcome slot s h = elim (Bool-cases (slot == 0)) [
    | inl zero_slot ↦ inl (sym (some-injective _ _ (sym (if_true _ _ zero_slot) ∙ h)))
    | inr real ↦ with_row-Outcome slot s (db.find slot s) refl (sym (if_false _ _ real) ∙ h)
  ]
