-- ===== src/Transfers/Price.antt =====
-- block/price.go: `IsSwapTransfer` and `GetBlockSolPriceByTransfer`, the SOL price in USD that a
-- chain of transfers gives. `none` is the panic of an index out of range.
pub mod Swap
use greet.Base.{
  ℕ, String, Bool, true, false, ◌&&◌, ◌||◌, if◌then◌else◌, str_eq, List, [], ◌∷◌, Option, none,
  some, and_then, Error, Result, ok, err, Floats,
}
use greet.Transfers.Types.{
  CompiledInstruction, InnerInstruction, TransferParam, TokenAccount, Map, lookup, wrap_sol, usdc,
  usdt,
}
use greet.Transfers.Decode.{decode_token_transfer}

abbrev pub Accounts : Type 0
Accounts = Map TokenAccount

-- The owners of the two ends of a transfer, where the map has both accounts.
abbrev pub owners : Accounts → TransferParam → Option (String × String)
owners m t =
    and_then (lookup m t.from) λ from. and_then (lookup m t.to) λ to. some (from.owner, to.owner)

abbrev pub swaps : Option (String × String) → Option (String × String) → Bool
swaps (some a) (some b) = str_eq a.0 b.1 || str_eq b.0 a.1
swaps _ _ = false

unfoldable pub is_swap_transfer : Option TransferParam → Option TransferParam → Accounts → Bool
is_swap_transfer (some a) (some b) m = swaps (owners m a) (owners m b)
is_swap_transfer _ _ m = false

-- What an instruction is to the loop: a transfer of wrapped SOL, one of USDC or USDT, or anything
-- else, after which the chain starts again.
pub data Event : Type 0 where
  breaks : Event
  moves_sol : TransferParam → Event
  moves_usd : TransferParam → Event

abbrev pub event_of_mint : TransferParam → String → Event
event_of_mint t mint =
    if str_eq mint wrap_sol
    then Event.moves_sol t
    else if str_eq mint usdc || str_eq mint usdt
    then Event.moves_usd t
    else Event.breaks

abbrev pub event_of_accounts : TransferParam → Option TokenAccount → Option TokenAccount → Event
event_of_accounts t (some from) (some to) = event_of_mint t from.token_address
event_of_accounts t _ _ = Event.breaks

abbrev pub event_of_result : Accounts → Result TransferParam → Event
event_of_result m (err e) = Event.breaks
event_of_result m (ok t) = event_of_accounts t (lookup m t.from) (lookup m t.to)

abbrev pub event_of : List String → Accounts → CompiledInstruction → Option Event
event_of keys m i = and_then (decode_token_transfer keys i) (λ r. some (event_of_result m r))

module _ (f : Floats) where
  open f use {F}

  -- The variables of the loop; `done` is its `break`.
  pub record PriceState : Type 0 where
    pub sol_price : F
    pub transfer_sol : Option TransferParam
    pub transfer_usd : Option TransferParam
    pub connect : Bool
    pub done : Bool

  -- `float64(transferUSD.Amount) / float64(transferSOL.Amount) * 1000`
  abbrev pub price_of : TransferParam → TransferParam → F
  price_of usd sol = f.mul_f (f.div_f (f.of_nat usd.amount) (f.of_nat sol.amount)) (f.of_nat 1000)

  abbrev pub reset : PriceState → PriceState
  reset s = record s { transfer_sol = none; transfer_usd = none; connect = false }

  -- The two branches of a transfer, by the transfer of the other side.
  abbrev pub meet_usd : Accounts → TransferParam → PriceState → Option TransferParam → PriceState
  meet_usd m sol s none = record s { connect = true }
  meet_usd m sol s (some usd) =
      if s.connect
      then (if is_swap_transfer (some sol) (some usd) m
          then record s { sol_price = price_of usd sol; done = true }
          else record s { sol_price = price_of usd sol; transfer_usd = none; connect = true })
      else record s { connect = true }

  abbrev pub meet_sol : Accounts → TransferParam → PriceState → Option TransferParam → PriceState
  meet_sol m usd s none = record s { connect = true }
  meet_sol m usd s (some sol) =
      if s.connect
      then (if is_swap_transfer (some sol) (some usd) m
          then record s { sol_price = price_of usd sol; done = true }
          else record s { sol_price = price_of usd sol; transfer_sol = none; connect = true })
      else record s { connect = true }

  unfoldable pub price_step : Accounts → Event → PriceState → PriceState
  price_step m Event.breaks s = reset s
  price_step m (Event.moves_sol t) s =
      meet_usd m t (record s { transfer_sol = some t }) s.transfer_usd
  price_step m (Event.moves_usd t) s =
      meet_sol m t (record s { transfer_usd = some t }) s.transfer_sol

  abbrev pub unless_done : (PriceState → Option PriceState) → PriceState → Option PriceState
  unless_done next s = if s.done then some s else next s

  unfoldable pub price_loop :
      List String → Accounts → List CompiledInstruction → PriceState → Option PriceState
  unfolding price_step
  price_loop keys m [] s = some s
  price_loop keys m (i ∷ is) s =
      and_then (event_of keys m i) λ e. unless_done (price_loop keys m is) (price_step m e s)

  abbrev pub price_start : PriceState
  price_start = record {
    sol_price = f.zero_f;
    transfer_sol = none;
    transfer_usd = none;
    connect = false;
    done = false;
  }

  abbrev pub final_price : Option TransferParam → Option TransferParam → Bool → F
  final_price (some sol) (some usd) true = price_of usd sol
  final_price _ _ _ = f.zero_f

  unfoldable pub get_block_sol_price_by_transfer :
      List String → Option InnerInstruction → Accounts → Option F
  unfolding price_loop
  get_block_sol_price_by_transfer keys none m = some f.zero_f
  get_block_sol_price_by_transfer keys (some inner) m =
      and_then (price_loop keys m inner.instructions price_start)
        λ s. some (final_price s.transfer_sol s.transfer_usd s.connect)
