-- ===== src/Transfers/BlockPrice.antt =====
-- block/price.go: `GetInnerInstructionMap` and `GetBlockSolPrice`, the SOL price of a block.
use greet.Base.{
  ℕ, suc, ◌==◌, ◌≡◌, refl, String, false, Bool-cases, inl, inr, if◌then◌else◌, List, [], ◌∷◌, ◌++◌,
  All, get_elem?, Option, none, some, and_then, Floats,
}
use greet.Transfers.Types.{CompiledInstruction, InnerInstruction, BlockTransaction}
use greet.Transfers.Decode.{get_inner_instruction_by_inner, is_in}
use greet.Transfers.Price.{get_block_sol_price_by_transfer}
use greet.Transfers.Average.{remove_min_and_max_and_calculate_average}
use greet.Transfers.Accounts.{Accounts, Filled, fill_token_account_map}

-- The map by the index of the outer instruction; a later entry replaces an earlier one.
abbrev pub inner_at : List InnerInstruction → ℕ → Option InnerInstruction
inner_at [] k = none
inner_at (inner ∷ rest) k =
    let later = inner_at rest k in
    elim later [ some found ↦ some found | none ↦ if inner.index == k then some inner else none ]

-- ProgramOrca, ProgramRaydiumConcentratedLiquidity, ProgramMeteoraDLMM, ProgramPhoneNix
abbrev pub stable_coin_swap_dexes : List String
stable_coin_swap_dexes =
    "whirLbMiicVdio4qvUfM5KAg6Ct8VwpYzGff3uctyCc" ∷ "CAMMCzo5YL8w4VFF8KVHrK22GGUsp5VTaW7grrKgrWqK"
    ∷ "LBUZKhRxPF3XUpBCjp4YzTKgLccjZhTSDM9YuVaPwxo" ∷ "PhoeNiXZ8ByJGLkxNfZRnkUfjvmuYqLR89jjFHGqdXY"
    ∷ []

module _ (f : Floats) where
  open f use {F}

  abbrev pub with_price : List F → F → List F
  with_price ps p = if f.lt_f f.zero_f p then ps ++ (p ∷ []) else ps

  -- The prices after one instruction of a swap program with its chain of transfers.
  abbrev pub see_swap :
      List String → Accounts → String → Option InnerInstruction → List F → Option (List F)
  see_swap keys m program inner ps =
      if is_in stable_coin_swap_dexes program
      then and_then (get_block_sol_price_by_transfer f keys inner m) (λ p. some (with_price ps p))
      else some ps

  -- The transaction's own instructions. The code asks the map for the index of the program's key,
  -- though the map goes by the index of the instruction.
  unfoldable pub outer_prices :
      List String
      → List InnerInstruction
      → Accounts
      → List CompiledInstruction
      → List F
      → Option (List F)
  outer_prices keys inners m [] ps = some ps
  outer_prices keys inners m (i ∷ is) ps = and_then (get_elem? keys i.program_id_index) λ program.
      and_then (see_swap keys m program (inner_at inners i.program_id_index) ps)
        (λ ps'. outer_prices keys inners m is ps')

  -- The inner instructions from place j on, each with the two that follow it.
  unfoldable pub inner_prices :
      List String
      → Accounts
      → List CompiledInstruction
      → ℕ
      → List CompiledInstruction
      → List F
      → Option (List F)
  inner_prices keys m all j [] ps = some ps
  inner_prices keys m all j (i ∷ is) ps = and_then (get_elem? keys i.program_id_index) λ program.
      and_then (see_swap keys m program (get_inner_instruction_by_inner all j 2) ps)
        (λ ps'. inner_prices keys m all (suc j) is ps')

  unfoldable pub all_inner_prices :
      List String → Accounts → List InnerInstruction → List F → Option (List F)
  unfolding inner_prices
  all_inner_prices keys m [] ps = some ps
  all_inner_prices keys m (inner ∷ rest) ps =
      and_then (inner_prices keys m inner.instructions 0 inner.instructions ps)
        (λ ps'. all_inner_prices keys m rest ps')

  -- The prices that a transaction adds, in the accounts that it leaves.
  unfoldable pub tx_prices : BlockTransaction → Filled → List F → Option (List F × Accounts)
  unfolding outer_prices all_inner_prices
  tx_prices tx s ps =
      if s.has_change
      then (and_then
          (outer_prices tx.account_keys tx.inner_instructions s.accounts tx.instructions ps)
          λ ps1.
            and_then (all_inner_prices tx.account_keys s.accounts tx.inner_instructions ps1)
              (λ ps2. some (ps2, s.accounts)))
      else some (ps, s.accounts)

  unfoldable pub block_prices :
      (List ℕ → String) → List BlockTransaction → Accounts → List F → Option (List F × Accounts)
  unfolding tx_prices
  block_prices text_of [] m ps = some (ps, m)
  block_prices text_of (tx ∷ txs) m ps =
      and_then (fill_token_account_map text_of tx m)
        λ s. and_then (tx_prices tx s ps) (λ r. block_prices text_of txs r.1 r.0)

  -- The price, or what the service remembers, or the price of a near block of the table (`none`:
  -- an error, or no such block).
  abbrev pub near_price : Option F → F
  near_price none = f.zero_f
  near_price (some p) = p

  abbrev pub chosen_price : F → F → Option F → F
  chosen_price price remembered near =
      if f.lt_f f.zero_f price
      then price
      else if f.lt_f f.zero_f remembered
      then remembered
      else near_price near

  -- The price, and the accounts, which the caller's map then has.
  unfoldable pub get_block_sol_price :
      (List ℕ → String) → F → Option F → List BlockTransaction → Accounts → Option (F × Accounts)
  unfolding block_prices
  get_block_sol_price text_of remembered near txs m =
      and_then (block_prices text_of txs m []) λ r.
        some (chosen_price (remove_min_and_max_and_calculate_average f r.0) remembered near, r.1)

  -- An instruction of a swap program gives no price of its own where no inner instructions are
  -- listed under the index of its program's key, whatever is listed under its own index.
  pub outer_prices_skip :
      (keys : List String) (inners : List InnerInstruction) (m : Accounts)
      (is : List CompiledInstruction) (ps : List F)
      → f.lt_f f.zero_f f.zero_f ≡ false
      → All
          (λ i.
            (inner_at inners i.program_id_index ≡ none)
            × (program : String) × (get_elem? keys i.program_id_index ≡ some program))
          is
      → outer_prices keys inners m is ps ≡ some ps
  unfolding outer_prices get_block_sol_price_by_transfer
  outer_prices_skip keys inners m [] ps zero_lt h = refl
  outer_prices_skip keys inners m (i ∷ is) ps zero_lt ((lost, program, e), rest) =
      elim (Bool-cases (is_in stable_coin_swap_dexes program)) [
        | inl dex ↦
            rw e
              (rw dex (rw lost (rw zero_lt (outer_prices_skip keys inners m is ps zero_lt rest))))
        | inr other ↦ rw e (rw other (outer_prices_skip keys inners m is ps zero_lt rest))
      ]
