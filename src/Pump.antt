-- ===== src/Pump.antt =====
-- PumpFun swaps of a transaction: consumer/internal/logic/sol/block/pump.go. `none` is the panic of
-- an index out of range.
pub mod Trades
use greet.Base.{
  ℕ, zero, suc, ◌+◌, ◌*◌, ◌%◌, ◌^◌, ◌==◌, ltb, leb, String, Bool, true, false, ◌&&◌, ◌||◌,
  if◌then◌else◌, str_eq, List, [], ◌∷◌, ◌++◌, length, get_elem?, drop, take, Option, none, some,
  and_then, Error, Result, ok, err, ◌>>=◌, Floats, Decimals,
}
use Prim.Native.String.{len}
use greet.Base.Bytes.{uint64_of}
use greet.Base.Int.{ℤ, pos, negsuc, sub_ℕ}
use greet.Base.Text.{codes, has_prefix}
use greet.Transfers.Types.{CompiledInstruction, TokenAccount, BlockTransaction, lookup, wrap_sol}
use greet.Transfers.Decode.{key_at}
use greet.Transfers.Accounts.{Accounts}
use greet.Pairs.Types.{Pair, TradeWithPair, trade_type_buy, trade_type_sell}

pub record PumpEvent : Type 0 where
  pub sign : ℕ  -- uint64
  pub mint : String
  pub sol_amount : ℕ  -- uint64
  pub token_amount : ℕ  -- uint64
  pub is_buy : Bool
  pub user : String
  pub time_stamp : ℕ  -- uint64
  pub virtual_sol_reserves : ℕ  -- uint64
  pub virtual_token_reserves : ℕ  -- uint64

-- The row of the block table, with the columns that are read or written.
pub record BlockRow (F : Type 0) : Type 0 where
  pub slot : ℕ
  pub block_height : ℕ
  pub block_time : ℕ
  pub status : ℕ
  pub sol_price : F

-- `DecodedTx`, with the transaction that every use of it holds.
pub record DecodedTx (F : Type 0) : Type 0 where
  pub block : BlockRow F
  pub sol_price : F
  pub token_accounts : Accounts
  pub tx : BlockTransaction
  pub tx_hash : String
  pub pump_events : List PumpEvent
  pub pump_event_index : ℕ

-- The transaction after the call, and the trade or the error; the trade is nil for another
-- instruction.
abbrev pub PumpResult : Type 0 → Type 0
PumpResult F = DecodedTx F × Result (Option (TradeWithPair F))

-- What the code calls of other libraries: the standard and the raw base64 decoding and the borsh
-- reading of an event.
pub record Codecs : Type 0 where
  pub base64_std : String → Result (List ℕ)
  pub base64_raw : String → Result (List ℕ)
  pub borsh_event : List ℕ → Result PumpEvent

abbrev pub pump_buy : ℕ
pump_buy = 16927863322537952870

abbrev pub pump_sell : ℕ
pump_sell = 12502976635542562355

-- `GetPumpInstruction`
unfoldable pub get_pump_instruction : List ℕ → ℕ
get_pump_instruction bytes = if ltb (length bytes) 8 then 0 else uint64_of bytes

-- A log line of an event.
abbrev pub is_event_log : String → Bool
is_event_log log = ltb 100 (len log) && has_prefix (codes log) (codes "Program data: vdt/007m")

abbrev drop_text : ℕ → String → String
drop_text zero s = s
drop_text (suc n) String.[] = String.[]
drop_text (suc n) (String.◌∷◌ c s) = drop_text n s

-- `strings.TrimPrefix(log, "Program data: ")` of a line that has that prefix.
abbrev pub trim_program_data : String → String
trim_program_data log = drop_text 14 log

-- The standard decoding, or the raw one where that fails.
abbrev pub base64_either : Result (List ℕ) → Result (List ℕ) → Result (List ℕ)
base64_either (ok bytes) raw = ok bytes
base64_either (err _) raw = raw

module _ (lib : Codecs) where
  open lib use {base64_std, base64_raw, borsh_event}

  abbrev pub event_of_log : String → Result PumpEvent
  event_of_log log = do
    bytes ← base64_either (base64_std (trim_program_data log)) (base64_raw (trim_program_data log))
    borsh_event bytes

  abbrev pub cons_event : Result PumpEvent → Result (List PumpEvent) → Result (List PumpEvent)
  cons_event (ok e) (ok es) = ok (e ∷ es)
  cons_event (ok e) (err x) = err x
  cons_event (err x) _ = err x

  -- `DecodePumpEvent`
  unfoldable pub decode_pump_event : List String → Result (List PumpEvent)
  decode_pump_event [] = ok []
  decode_pump_event (log ∷ logs) =
      let rest = decode_pump_event logs in
      if is_event_log log then cons_event (event_of_log log) rest else rest

-- The events, none where the logs cannot be read (the error is logged).
abbrev pub events_or_none : Result (List PumpEvent) → List PumpEvent
events_or_none (ok es) = es
events_or_none (err _) = []

-- `int64(x)` of a uint64.
abbrev pub int64_of : ℕ → ℤ
int64_of n = if ltb n (2 ^ 63) then pos n else sub_ℕ n (2 ^ 64)

module _ (f : Floats) (d : Decimals f.F) (virtual_init_token init_sol : f.F) where
  open f use {F}

  -- `decimal.New(int64(n), -exp).InexactFloat64()`
  abbrev pub amount_f : ℕ → ℕ → F
  amount_f n exp = d.to_float (d.scaled (int64_of n) (sub_ℕ 0 exp))

  abbrev pub times : F → F → F
  times a b = d.to_float (d.mul_d (d.of_float a) (d.of_float b))

  abbrev pub quotient : F → F → F
  quotient a b = d.to_float (d.div_d (d.of_float a) (d.of_float b))

  -- The trade of an event; its fields that are not set have their zero values.
  unfoldable pub trade_of_event :
      DecodedTx F → PumpEvent → String → String → String → TokenAccount → TradeWithPair F
  trade_of_event dtx e pair to maker account =
      let base_amount = amount_f e.sol_amount 9 in
      let token_amount = amount_f e.token_amount account.token_decimal in
      let total = times base_amount dtx.sol_price in
      let pool_base = amount_f e.virtual_sol_reserves 9 in
      let pool_token = amount_f e.virtual_token_reserves account.token_decimal in
      record {
        slot = 0;
        chain_id = "100000";
        pair_addr = pair;
        tx_hash = dtx.tx_hash;
        maker = maker;
        trade_type = if e.is_buy then trade_type_buy else trade_type_sell;
        base_token_amount = base_amount;
        token_amount = token_amount;
        base_token_price_usd = dtx.sol_price;
        total_usd = total;
        token_price_usd = quotient total token_amount;
        to = to;
        block_time = 0;
        swap_name = "";
        current_token_in_pool_amount = pool_token;
        current_base_token_in_pool_amount = pool_base;
        fdv = f.zero_f;
        mcap = f.zero_f;
        pump_point = f.zero_f;
        pump_launched = false;
        pump_market_cap = f.zero_f;
        pump_owner = "";
        pump_swap_pair_addr = "";
        pump_virtual_base_token_reserves = f.zero_f;
        pump_virtual_token_reserves = f.zero_f;
        pump_status = 0;
        pump_pair_addr = "";
        pair_info = record {
          chain_id = "100000";
          addr = pair;
          base_token_addr = wrap_sol;
          token_addr = e.mint;
          base_token_symbol = "SOL";
          token_symbol = "";
          base_token_decimal = 9;
          token_decimal = account.token_decimal;
          base_token_is_native_token = false;
          base_token_is_token0 = false;
          token_total_supply = f.zero_f;
          init_token_amount = virtual_init_token;
          init_base_token_amount = init_sol;
          name = "PumpFun";
          block_num = dtx.block.slot;
          block_time = dtx.block.block_time;
          current_base_token_amount = pool_base;
          current_token_amount = pool_token;
        };
      }

  -- The division by the amount panics where the amount is zero.
  abbrev pub priced_trade :
      DecodedTx F → PumpEvent → String → String → String → TokenAccount → Option (TradeWithPair F)
  priced_trade dtx e pair to maker account =
      if d.is_zero (d.of_float (amount_f e.token_amount account.token_decimal))
      then none
      else some (trade_of_event dtx e pair to maker account)

module _ (f : Floats) (d : Decimals f.F) (virtual_init_token init_sol : f.F) (lib : Codecs) where
  open f use {F}

  abbrev pub with_event :
      DecodedTx F
      → String
      → String
      → String
      → TokenAccount
      → Option PumpEvent
      → Option (PumpResult F)
  with_event dtx pair to maker account none = some (dtx, err (Error.other "pump event not found"))
  with_event dtx pair to maker account (some e) =
      let dtx' = record dtx { pump_event_index = dtx.pump_event_index + 1 } in
      and_then (priced_trade f d virtual_init_token init_sol dtx' e pair to maker account)
        (λ t. some (dtx', ok (some t)))

  abbrev pub with_account :
      DecodedTx F → String → String → String → Option TokenAccount → Option (PumpResult F)
  with_account dtx pair to maker none = some (dtx, err (Error.other "tokenAccountInfo not found"))
  with_account dtx pair to maker (some account) =
      let dtx' = record dtx {
        pump_events = events_or_none (decode_pump_event lib dtx.tx.log_messages);
      } in
      with_event dtx' pair to maker account (get_elem? dtx'.pump_events dtx'.pump_event_index)

  -- A swap: the pair, the account it pays to, the maker and the maker's token account stand at
  -- fixed places of the instruction's accounts.
  abbrev pub decode_swap : DecodedTx F → CompiledInstruction → Option (PumpResult F)
  decode_swap dtx i = and_then (key_at dtx.tx.account_keys i.accounts 3) λ pair.
      and_then (key_at dtx.tx.account_keys i.accounts 4) λ to.
        and_then (key_at dtx.tx.account_keys i.accounts 6) λ maker.
          and_then (key_at dtx.tx.account_keys i.accounts 5)
            λ account. with_account dtx pair to maker (lookup dtx.token_accounts account)

  -- `DecodePumpInstruction`
  unfoldable pub decode_pump_instruction : DecodedTx F → CompiledInstruction → Option (PumpResult F)
  unfolding decode_pump_event get_pump_instruction
  decode_pump_instruction dtx i =
      let tag = get_pump_instruction i.bytes in
      if tag == pump_buy || tag == pump_sell then decode_swap dtx i else some (dtx, ok none)
