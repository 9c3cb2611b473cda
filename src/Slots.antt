-- ===== src/Slots.antt =====
-- The service that tries failed blocks again: consumer/internal/logic/sol/slot/not_complete.go with
-- `FindFirstFailedBlock` and `FindProcessingSlots` of model/solmodel/blockmodel.go, whose queries
-- are written out over the rows of the block table, in the order of their primary key.
pub mod Newest
pub mod Stops
use greet.Base.{
  ℕ, ◌+◌, ◌-◌, ◌%◌, ◌^◌, ◌==◌, ltb, leb, Bool, true, ◌&&◌, if◌then◌else◌, List, [], ◌∷◌, ◌++◌, map,
  length, take, filter, Option, none, some, Result, ok, err,
}
use greet.Base.Int.{ℤ, pos, negsuc}
use greet.Pump.{BlockRow, int64_of}
use greet.Blocks.Process.{block_failed}

abbrev pub at_least : ℤ → ℕ → Bool
at_least (pos low) slot = leb low slot
at_least (negsuc _) slot = true

-- A tick of `checkTicker`: the answer of the database then, and after how many slots of this tick
-- the context is done, if it is.
pub record Round (F : Type 0) : Type 0 where
  pub answer : Result (List (BlockRow F))
  pub done_after : Option ℕ

abbrev pub send_slots : List ℕ → Option ℕ → List ℕ → List ℕ
send_slots slots none later = slots ++ later
send_slots slots (some n) later = if ltb n (length slots) then take n slots else slots ++ later

-- `int64(slot-100)` of a uint64.
abbrev pub low_slot : ℕ → ℤ
low_slot start = int64_of ((start + 2 ^ 64 - 100) % 2 ^ 64)

module _ {F : Type 0} where
  -- `status = ? and slot >= ?`
  abbrev pub is_wanted : ℤ → BlockRow F → Bool
  is_wanted low b = b.status == block_failed && at_least low b.slot

  -- `slot desc`
  abbrev pub insert_by_slot : BlockRow F → List (BlockRow F) → List (BlockRow F)
  insert_by_slot b [] = b ∷ []
  insert_by_slot b (x ∷ xs) =
      let rest = insert_by_slot b xs in if ltb b.slot x.slot then x ∷ rest else b ∷ x ∷ xs

  abbrev pub order_by_slot : List (BlockRow F) → List (BlockRow F)
  order_by_slot [] = []
  order_by_slot (x ∷ xs) = insert_by_slot x (order_by_slot xs)

  -- `FindProcessingSlots` over the rows of the table.
  unfoldable pub processing_slots : ℤ → ℕ → List (BlockRow F) → List (BlockRow F)
  processing_slots low limit rows = take limit (order_by_slot (filter (is_wanted low) rows))

  -- … over the answer of the database. A query that fails gives no rows.
  abbrev pub find_processing_slots : ℤ → ℕ → Result (List (BlockRow F)) → List (BlockRow F)
  find_processing_slots low limit (err e) = []
  find_processing_slots low limit (ok rows) = processing_slots low limit rows

  -- `FindFirstFailedBlock`
  abbrev pub first_failed : List (BlockRow F) → Option ℕ
  first_failed [] = none
  first_failed (b ∷ bs) = if b.status == block_failed then some b.slot else first_failed bs

  abbrev pub find_first_failed_block : Result (List (BlockRow F)) → Option ℕ
  find_first_failed_block (err e) = none
  find_first_failed_block (ok rows) = first_failed rows

  abbrev pub slots_of : List (BlockRow F) → List ℕ
  slots_of = map (λ b. b.slot)

  -- The loop: the slots that go to `errorCh`. The context is done after the last tick. The service
  -- returns where there are no rows, an error included.
  abbrev pub check_rounds : ℤ → List (Round F) → List ℕ
  check_rounds low [] = []
  check_rounds low (r ∷ rs) =
      let slots = slots_of (find_processing_slots low 50 r.answer) in
      let later = check_rounds low rs in
      if length slots == 0 then [] else send_slots slots r.done_after later

  abbrev pub from_start : Option ℕ → List (Round F) → List ℕ
  from_start none rounds = []
  from_start (some start) rounds = check_rounds (low_slot start) rounds

  -- The first slot: the configured one, or that of the first failed block.
  abbrev pub first_slot : ℕ → Result (List (BlockRow F)) → Option ℕ
  first_slot start_block first =
      if start_block == 0 then find_first_failed_block first else some start_block

  -- `SlotNotCompleted` with the configured first block and the database's first answer.
  unfoldable pub slot_not_completed : ℕ → Result (List (BlockRow F)) → List (Round F) → List ℕ
  unfolding processing_slots
  slot_not_completed start_block first rounds = from_start (first_slot start_block first) rounds
