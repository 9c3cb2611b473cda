-- ===== src/Slots/Stops.antt =====
-- When the service that tries failed blocks again ends, and the slots that it sends.
use mathlib.Core.Path.{subst}
use greet.Base.{
  ℕ, zero, suc, ◌+◌, ◌-◌, ◌≤◌, ◌<◌, ◌%◌, ◌^◌, ◌==◌, ltb, leb, ◌≡◌, refl, sym, ap, ◌∙◌, inl, inr,
  true, false, filter, Bool-cases, if◌then◌else◌, if_true, if_false, List, [], ◌∷◌, ◌++◌, length,
  take, All, Option, none, some, Result, ok, err, arith,
}
use greet.Base.Int.{ℤ, pos, sub_ℕ}
use greet.Pump.{BlockRow}
use greet.Blocks.Process.{block_failed}
use greet.Slots.{
  at_least, is_wanted, find_processing_slots, Round, send_slots, slots_of, check_rounds, low_slot,
  from_start, first_slot, order_by_slot, processing_slots, slot_not_completed,
}
use greet.Slots.Newest.{processing_slots-Newest}

All-append : (P : ℕ → Type 0) (xs ys : List ℕ) → All P xs → All P ys → All P (xs ++ ys)
All-append P [] ys ps qs = qs
All-append P (x ∷ xs) ys (p, ps) qs = (p, All-append P xs ys ps qs)

take-All : (P : ℕ → Type 0) (n : ℕ) (xs : List ℕ) → All P xs → All P (take n xs)
take-All P zero xs ps = tt
take-All P (suc n) [] ps = tt
take-All P (suc n) (x ∷ xs) (p, ps) = (p, take-All P n xs ps)

send_slots-All :
    (P : ℕ → Type 0) (slots : List ℕ) (o : Option ℕ) (later : List ℕ)
    → All P slots
    → All P later
    → All P (send_slots slots o later)
send_slots-All P slots none later ps qs = All-append P slots later ps qs
send_slots-All P slots (some n) later ps qs = elim (Bool-cases (ltb n (length slots))) [
  | inl l ↦ subst (All P) (sym (if_true _ _ l)) (take-All P n slots ps)
  | inr g ↦ subst (All P) (sym (if_false _ _ g)) (All-append P slots later ps qs)
]

abbrev AtLeast : ℤ → ℕ → Type 0
AtLeast low slot = at_least low slot ≡ true

low_slot-AtLeast : (start k : ℕ) → start < 2 ^ 63 → AtLeast (low_slot start) k → start ≤ k + 100
low_slot-AtLeast start k small h =
    elim (Bool-cases (ltb ((start + 2 ^ 64 - 100) % 2 ^ 64) (2 ^ 63))) [
      | inl l ↦
          let e =
            if_true (pos ((start + 2 ^ 64 - 100) % 2 ^ 64))
              (sub_ℕ ((start + 2 ^ 64 - 100) % 2 ^ 64) (2 ^ 64)) l in
          let h' : leb ((start + 2 ^ 64 - 100) % 2 ^ 64) k ≡ true =
            ap (λ z. at_least z k) (sym e) ∙ h in
          ground arith
      | inr g ↦ ground arith
    ]

All-map : (P Q : ℕ → Type 0) (xs : List ℕ) → ((k : ℕ) → P k → Q k) → All P xs → All Q xs
All-map P Q [] g ps = tt
All-map P Q (x ∷ xs) g (p, ps) = (g x p, All-map P Q xs g ps)

module _ {F : Type 0} where
  -- The answer to a query shows no failed block from a hundred below the slot on: the query failed,
  -- or all failed blocks of the table are older.
  abbrev pub Exhausted : ℕ → Result (List (BlockRow F)) → Type 0
  Exhausted start (err e) = Unit {0}
  Exhausted start (ok rows) = All (λ b. b.status ≡ block_failed → b.slot + 100 < start) rows

  old-is_wanted :
      (start : ℕ) (b : BlockRow F)
      → start < 2 ^ 63
      → (b.status ≡ block_failed → b.slot + 100 < start)
      → is_wanted (low_slot start) b ≡ false
  old-is_wanted start b small old = elim (Bool-cases (b.status == block_failed)) [
    | inr other ↦ rw other refl
    | inl failed ↦ elim (Bool-cases (at_least (low_slot start) b.slot)) [
      | inr below ↦ rw failed below
      | inl above ↦
          let near = low_slot-AtLeast start b.slot small above in
          let far = old (ground arith) in absurd (omega (arith, near, far))
    ]
  ]

  filter-none :
      (start : ℕ) (rows : List (BlockRow F))
      → start < 2 ^ 63
      → Exhausted start (ok rows)
      → filter (is_wanted (low_slot start)) rows ≡ []
  filter-none start [] small old = refl
  filter-none start (b ∷ bs) small (o, os) =
      rw (old-is_wanted start b small o) (filter-none start bs small os)

  find_processing_slots-none :
      (start : ℕ) (answer : Result (List (BlockRow F)))
      → start < 2 ^ 63
      → Exhausted start answer
      → find_processing_slots (low_slot start) 50 answer ≡ []
  unfolding processing_slots
  find_processing_slots-none start (err e) small old = refl
  find_processing_slots-none start (ok rows) small old =
      ap (λ found. take 50 (order_by_slot found)) (filter-none start rows small old)

  check_rounds-stop :
      (low : ℤ) (before : List (Round F)) (r : Round F) (later : List (Round F))
      → find_processing_slots low 50 r.answer ≡ []
      → check_rounds low (before ++ r ∷ later) ≡ check_rounds low before
  check_rounds-stop low [] r later h = if_true _ _ (ap (λ rows. length (slots_of rows) == 0) h)
  check_rounds-stop low (b ∷ bs) r later h =
      ap
        (λ rest.
          if length (slots_of (find_processing_slots low 50 b.answer)) == 0
          then []
          else send_slots (slots_of (find_processing_slots low 50 b.answer)) b.done_after rest)
        (check_rounds-stop low bs r later h)

  from_start-stop :
      (start : Option ℕ) (before : List (Round F)) (r : Round F) (later : List (Round F))
      → ((n : ℕ) → start ≡ some n → (n < 2 ^ 63) × Exhausted n r.answer)
      → from_start start (before ++ r ∷ later) ≡ from_start start before
  from_start-stop none before r later h = refl
  from_start-stop (some start) before r later h =
      let (small, old) = h start refl in
      check_rounds-stop (low_slot start) before r later
        (find_processing_slots-none start r.answer small old)

  -- After a query that fails, or at which all failed blocks of the table are more than a hundred
  -- slots older than the first slot, a number below 2^63, no slot is ever sent again, whatever fails
  -- later.
  pub slot_not_completed-stops :
      (start_block : ℕ) (first : Result (List (BlockRow F))) (before : List (Round F)) (r : Round F)
      (later : List (Round F))
      → ((start : ℕ)
          → first_slot start_block first ≡ some start
          → (start < 2 ^ 63) × Exhausted start r.answer)
      → slot_not_completed start_block first (before ++ r ∷ later)
        ≡ slot_not_completed start_block first before
  unfolding slot_not_completed
  slot_not_completed-stops start_block first before r later h =
      from_start-stop (first_slot start_block first) before r later h

  slots_of-AtLeast :
      (low : ℤ) (rows : List (BlockRow F))
      → All (λ b. is_wanted low b ≡ true) rows
      → All (AtLeast low) (slots_of rows)
  slots_of-AtLeast low [] ps = tt
  slots_of-AtLeast low (b ∷ bs) (p, ps) =
      let low_enough : at_least low b.slot ≡ true = ground arith in
      (low_enough, slots_of-AtLeast low bs ps)

  found-AtLeast :
      (low : ℤ) (answer : Result (List (BlockRow F)))
      → All (AtLeast low) (slots_of (find_processing_slots low 50 answer))
  found-AtLeast low (err e) = tt
  found-AtLeast low (ok rows) = slots_of-AtLeast low _ (processing_slots-Newest low 50 rows).wanted

  check_rounds-AtLeast :
      (low : ℤ) (rounds : List (Round F)) → All (AtLeast low) (check_rounds low rounds)
  check_rounds-AtLeast low [] = tt
  check_rounds-AtLeast low (r ∷ rs) =
      let slots = slots_of (find_processing_slots low 50 r.answer) in
      elim (Bool-cases (length slots == 0)) [
        | inl none_left ↦ subst (All (AtLeast low)) (sym (if_true _ _ none_left)) tt
        | inr more ↦ subst (All (AtLeast low)) (sym (if_false _ _ more)) (
            send_slots-All (AtLeast low) slots r.done_after (check_rounds low rs)
              (found-AtLeast low r.answer) (check_rounds-AtLeast low rs))
      ]

  from_start-AtLeast :
      (first : Option ℕ) (start : ℕ) (rounds : List (Round F))
      → first ≡ some start
      → start < 2 ^ 63
      → All (λ k. start ≤ k + 100) (from_start first rounds)
  from_start-AtLeast none start rounds e small = absurd cc
  from_start-AtLeast (some start') start rounds e small =
      let same : start' ≡ start = cc in
      subst (λ n. All (λ k. start ≤ k + 100) (check_rounds (low_slot n) rounds)) (sym same)
        (All-map _ _ _ (λ k h. low_slot-AtLeast start k small h)
          (check_rounds-AtLeast (low_slot start) rounds))

  -- No slot more than a hundred below the first one is sent, the first one being the configured
  -- block or the first failed block of the table, below 2^63.
  pub slot_not_completed-window :
      (start_block : ℕ) (first : Result (List (BlockRow F))) (start : ℕ) (rounds : List (Round F))
      → first_slot start_block first ≡ some start
      → start < 2 ^ 63
      → All (λ k. start ≤ k + 100) (slot_not_completed start_block first rounds)
  unfolding slot_not_completed
  slot_not_completed-window start_block first start rounds e small =
      from_start-AtLeast (first_slot start_block first) start rounds e small
