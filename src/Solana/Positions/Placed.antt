-- ===== src/Solana/Positions/Placed.antt =====
-- The ticks of a position and the arrays in which they stand.
use greet.Base.{
  ◌^◌, ℕ, ◌*◌, ◌==◌, ◌<◌, ◌≡◌, refl, if_false, false, String, some, Floats, Decimals, arith,
}
use greet.Base.Int.{ℤ, pos_part, neg_part}
use greet.Solana.Pools.{PoolNode}
use greet.Solana.Ticks.{
  tick_with_spacing, get_tick_array_start_index_by_tick, IsFloor, IsFloor-near, ticks-IsFloor,
}
use greet.Solana.Positions.{
  Logs, TickArrays, tick_of, tick_array_address, failure_of, find_tick_arrays,
}

module _ (f : Floats) (logs : Logs f) (d : Decimals f.F) (node : PoolNode d) where
  -- A tick is that of its price aligned to the spacing, and its array of 60 spacings begins at the
  -- last multiple of that width.
  abbrev pub PlacedAt : ℕ → ℤ → ℤ → ℤ → Type 0
  PlacedAt spacing price tick start =
      IsFloor (tick_of f logs d node price) spacing tick × IsFloor tick (spacing * 60) start

  abbrev pub Placed : String → ℕ → ℤ → ℤ → String → TickArrays → Type 0
  Placed pool spacing lower_price upper_price program a =
      PlacedAt spacing lower_price a.tick_lower a.lower_start
      × PlacedAt spacing upper_price a.tick_upper a.upper_start
      × (a.failure ≡ failure_of (tick_array_address f logs d node pool a.upper_start program))

  -- A price whose tick is well within an int.
  abbrev pub HasTick : ℤ → Type 0
  HasTick price =
      (pos_part (tick_of f logs d node price) < 2 ^ 62)
      × (neg_part (tick_of f logs d node price) < 2 ^ 62)

  -- The tick of a price and the start of its array.
  placed :
      (spacing : ℕ) (price : ℤ)
      → 0 < spacing
      → spacing < 2 ^ 16
      → HasTick price
      → PlacedAt spacing price (tick_with_spacing (tick_of f logs d node price) spacing) (
          get_tick_array_start_index_by_tick
            (tick_with_spacing (tick_of f logs d node price) spacing)
            spacing
            60)
  placed spacing price h fits (above, below) =
      let from = tick_of f logs d node price in
      let tick = tick_with_spacing from spacing in
      let aligned : IsFloor from spacing tick =
        (ticks-IsFloor from spacing 60 h (omega arith) (omega (arith, above))
          (omega (arith, below, fits)) (omega (arith, below, fits))).0 in
      let (high, low) = IsFloor-near from spacing tick aligned in
      (
        aligned,
        (ticks-IsFloor tick spacing 60 h (omega arith) (omega (arith, above, high))
            (omega (arith, below, low, fits)) (omega (arith, below, low, fits))).1,
      )

  -- For a spacing of 16 bits that is not zero and prices whose ticks are below 2^62 in size,
  -- findTickArrays returns, with each tick the largest multiple of the spacing that is not above
  -- the tick of its price, and each start the largest multiple of 60 spacings that is not above
  -- that tick; its error is that of the upper address alone.
  pub find_tick_arrays-Placed :
      (pool program : String) (spacing : ℕ) (lower_price upper_price : ℤ)
      → 0 < spacing
      → spacing < 2 ^ 16
      → HasTick lower_price
      → HasTick upper_price
      → (a : TickArrays) × (find_tick_arrays f logs d node pool spacing lower_price upper_price
            program
          ≡ some a)
        × Placed pool spacing lower_price upper_price program a
  unfolding find_tick_arrays
  find_tick_arrays-Placed pool program spacing lower_price upper_price h fits lower upper =
      let some_spacing : (spacing == 0) ≡ false = ground arith in
      (
        _,
        if_false _ _ some_spacing,
        (placed spacing lower_price h fits lower, placed spacing upper_price h fits upper, refl),
      )
