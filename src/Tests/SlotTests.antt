-- ===== src/Tests/SlotTests.antt =====
-- Runs of the service that tries failed blocks again, and the theorems at them.
use mathlib.Core.Path.{subst}
use mathlib.Core.Option.{some-injective}
use greet.Base.{arith, ◌<◌, ◌^◌, ℕ, ◌≡◌, refl, List, [], ◌∷◌, ◌++◌, none, some, Error, ok, err}
use greet.Base.Int.{pos}
use greet.Pump.{BlockRow}
use greet.Slots.{first_slot, Round, processing_slots, slot_not_completed}
use greet.Slots.Newest.{Newest, processing_slots-Newest}
use greet.Slots.Stops.{Exhausted, slot_not_completed-stops}

abbrev row : ℕ → ℕ → BlockRow ℕ
row slot status = record {
  slot = slot;
  block_height = 0;
  block_time = 0;
  status = status;
  sol_price = 0;
}

-- 1 is processed, 2 is failed.
abbrev rows : List (BlockRow ℕ)
rows = row 310 2 ∷ row 320 1 ∷ row 250 2 ∷ row 330 2 ∷ row 100 2 ∷ []

newest : processing_slots (pos 210) 2 rows ≡ row 330 2 ∷ row 310 2 ∷ []
unfolding processing_slots
newest = refl

abbrev round : Round ℕ
round = record { answer = ok rows; done_after = none }

abbrev broken : Round ℕ
broken = record { answer = err (Error.other "invalid connection"); done_after = none }

abbrev cut : Round ℕ
cut = record { answer = ok rows; done_after = some 1 }

-- The first failed block is the first row; a context that is done ends the second tick early.
two_ticks : slot_not_completed 0 (ok rows) (round ∷ cut ∷ round ∷ []) ≡ 330 ∷ 310 ∷ 250 ∷ 330 ∷ []
unfolding slot_not_completed
two_ticks = refl

-- A configured first block below 100 asks for all failed blocks.
all_failed : slot_not_completed 7 (ok []) (round ∷ []) ≡ 330 ∷ 310 ∷ 250 ∷ 100 ∷ []
unfolding slot_not_completed
all_failed = refl

processing_slots-Newest_example : Newest rows (pos 210) 2 (processing_slots (pos 210) 2 rows)
processing_slots-Newest_example = processing_slots-Newest (pos 210) 2 rows

-- The only failed block that is left is older than the first slot less a hundred.
abbrev old : Round ℕ
old = record { answer = ok (row 320 1 ∷ row 100 2 ∷ []); done_after = none }

old_is_old :
    (start : ℕ)
    → first_slot 310 (ok rows) ≡ some start
    → (start < 2 ^ 63) × Exhausted start old.answer
old_is_old start h =
    subst (λ n. (n < 2 ^ 63) × Exhausted n old.answer) (some-injective _ _ h)
      (omega arith, (λ e. absurd (omega (arith, e)), (λ e. omega arith, tt)))

slot_not_completed-stops_example :
    slot_not_completed 310 (ok rows) ((round ∷ []) ++ old ∷ round ∷ round ∷ [])
    ≡ slot_not_completed 310 (ok rows) (round ∷ [])
slot_not_completed-stops_example =
    slot_not_completed-stops 310 (ok rows) (round ∷ []) old (round ∷ round ∷ []) old_is_old
