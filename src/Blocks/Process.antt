-- ===== src/Blocks/Process.antt =====
-- block/block.go: `DecodeInstruction`, `DecodeTx` and `ProcessBlock`, with the filter of
-- `SaveTrades` (block/db.go). The saving of the trades runs beside the rest in routines of its own
-- that `ProcessBlock` does not wait for: a run gives the trades that it hands over, by pair.
use greet.Base.{
  ℕ, ◌==◌, ltb, ◌≡◌, ◌≢◌, String, Bool, ◌&&◌, ◌||◌, not, if◌then◌else◌, str_eq, List, [], ◌∷◌, ◌++◌,
  filter, get_elem?, Option, none, some, and_then, Error, error_text, Result, ok, err, Floats,
  Decimals,
}
use Prim.Native.String.{len}
use greet.Base.Text.{contains}
use greet.Transfers.Types.{CompiledInstruction, BlockTransaction, Map, lookup, set}
use greet.Transfers.Accounts.{Accounts}
use greet.Transfers.BlockPrice.{get_block_sol_price}
use greet.Pairs.Types.{TradeWithPair, trade_type_buy, trade_type_sell}
use greet.Pump.{BlockRow, DecodedTx, PumpResult, Codecs, decode_pump_instruction}

abbrev pub block_processed : ℕ
block_processed = 1

abbrev pub block_failed : ℕ
block_failed = 2

abbrev pub block_skipped : ℕ
block_skipped = 3

abbrev pub program_pump_fun : String
program_pump_fun = "6EF8rrecthR5Dkzon8Nwu78hRvfCKubJ14M5uBEwF6P"

-- client.Block, the fields that are read.
pub record BlockInfo : Type 0 where
  pub parent_slot : ℕ
  pub block_time : Option ℕ
  pub block_height : Option ℕ
  pub transactions : List BlockTransaction

pub data FoundBlock (F : Type 0) : Type 0 where
  found : BlockRow F → FoundBlock F
  missing : FoundBlock F
  failed : Error → FoundBlock F

-- The block table over gorm. `insert` is gorm's `Save`, which also replaces; after an error the
-- table is as before.
pub record BlockStore (F : Type 0) : Type 1 where
  pub S : Type 0
  pub row : ℕ → S → Option (BlockRow F)
  -- `FindOneBySlot`, and the price of `FindOneByNearSlot`
  pub find : ℕ → S → FoundBlock F
  pub near : ℕ → S → Option F
  pub insert : BlockRow F → S → Result S
  pub find_row :
      (k : ℕ) (s : S) {b : BlockRow F}
      → find k s ≡ FoundBlock.found b
      → (row k s ≡ some b) × (b.slot ≡ k)
  pub find_missing : (k : ℕ) (s : S) → find k s ≡ FoundBlock.missing → row k s ≡ none
  pub insert_row : (b : BlockRow F) (s : S) {s' : S} → insert b s ≡ ok s' → row b.slot s' ≡ some b
  pub insert_other :
      (b : BlockRow F) (s : S) {s' : S} (k : ℕ)
      → insert b s ≡ ok s'
      → b.slot ≢ k
      → row k s' ≡ row k s

-- What stays the same over a run of the service: the libraries, the node's answer for each slot
-- (that of `GetSolBlockInfo`), the clock and the price that the service remembers.
pub record Service (F : Type 0) : Type 0 where
  pub lib : Codecs
  pub text_of : List ℕ → String
  pub block_info : ℕ → Result (Option BlockInfo)
  pub now : ℕ
  pub remembered : F
  pub virtual_init_token : F
  pub init_sol : F

module _ (f : Floats) (d : Decimals f.F) (sv : Service f.F) where
  open f use {F}

  abbrev pub Trades : Type 0
  Trades = List (TradeWithPair F)

  unfoldable pub decode_instruction : DecodedTx F → CompiledInstruction → Option (PumpResult F)
  decode_instruction dtx i = and_then (get_elem? dtx.tx.account_keys i.program_id_index) λ program.
      if str_eq program program_pump_fun
      then decode_pump_instruction f d sv.virtual_init_token sv.init_sol sv.lib dtx i
      else some (dtx, ok none)

  -- An error is logged and dropped.
  abbrev pub add_trade : Result (Option (TradeWithPair F)) → Trades → Trades
  add_trade (ok (some t)) ts = t ∷ ts
  add_trade _ ts = ts

  unfoldable pub decode_all : DecodedTx F → List CompiledInstruction → Option Trades
  unfolding decode_instruction
  decode_all dtx [] = some []
  decode_all dtx (i ∷ is) =
      and_then (decode_instruction dtx i)
        λ r. and_then (decode_all r.0 is) (λ ts. some (add_trade r.1 ts))

  -- The trades of a transaction; the caller drops an error, which comes with no trades.
  abbrev pub decode_logged : DecodedTx F → List String → Option Trades
  decode_logged dtx [] = some []
  decode_logged dtx (log ∷ logs) = decode_all dtx dtx.tx.instructions

  unfoldable pub decode_tx : DecodedTx F → Option Trades
  unfolding decode_all
  decode_tx dtx = if dtx.tx.failed then some [] else decode_logged dtx dtx.tx.log_messages

  abbrev pub decoded_tx : BlockRow F → F → Accounts → BlockTransaction → DecodedTx F
  decoded_tx block price m tx = record {
    block = block;
    sol_price = price;
    token_accounts = m;
    tx = tx;
    tx_hash = tx.signature;
    pump_events = [];
    pump_event_index = 0;
  }

  unfoldable pub decode_block : BlockRow F → F → Accounts → List BlockTransaction → Option Trades
  unfolding decode_tx
  decode_block block price m [] = some []
  decode_block block price m (tx ∷ txs) =
      and_then (decode_tx (decoded_tx block price m tx))
        λ ts. and_then (decode_block block price m txs) (λ rest. some (ts ++ rest))

  -- `tradeMap`: the trades of each pair, in order.
  abbrev pub trades_or_none : Option Trades → Trades
  trades_or_none none = []
  trades_or_none (some ts) = ts

  unfoldable pub group_by_pair : Trades → Map Trades → Map Trades
  group_by_pair [] m = m
  group_by_pair (t ∷ ts) m = group_by_pair ts (
      if ltb 0 (len t.pair_addr)
      then set t.pair_addr (trades_or_none (lookup m t.pair_addr) ++ (t ∷ [])) m
      else m)

  -- The filter of `SaveTrades`.
  abbrev pub is_saved : TradeWithPair F → Bool
  is_saved t =
      (str_eq t.trade_type trade_type_buy || str_eq t.trade_type trade_type_sell)
      && not (f.eq_f t.token_price_usd f.zero_f)

  -- The calls of `BatchSaveByTrade`, one for each pair.
  unfoldable pub save_trades : Map Trades → Map Trades
  save_trades [] = []
  save_trades ((k, ts) ∷ m) = (k, filter is_saved ts) ∷ save_trades m

module _ (f : Floats) (d : Decimals f.F) (sv : Service f.F) (db : BlockStore f.F) where
  open f use {F}
  open db use {S}

  -- The block table after a run, and the calls of `BatchSaveByTrade`.
  pub record Processed : Type 0 where
    pub table : S
    pub saved : Map (Trades f d sv)

  abbrev pub unchanged : S → Processed
  unchanged s = record { table = s; saved = [] }

  -- The table after an insertion whose error is logged or dropped.
  abbrev pub after_insert : S → Result S → S
  after_insert s (ok s') = s'
  after_insert s (err e) = s

  abbrev pub record_block : BlockRow F → S → Map (Trades f d sv) → Processed
  record_block b s saved = record { table = after_insert s (db.insert b s); saved = saved }

  -- A block that the node does not give; 0 is the zero time.
  abbrev pub failed_block : BlockRow F → BlockRow F
  failed_block b = record b {
    status = block_failed;
    block_time = if b.block_time == 0 then sv.now else b.block_time;
  }

  abbrev pub no_info : BlockRow F → Error → S → Processed
  no_info b e s =
      if contains (error_text e) "was skipped"
      then record_block (record b { status = block_skipped }) s []
      else record_block (failed_block b) s []

  abbrev pub value_or_now : Option ℕ → ℕ
  value_or_now none = sv.now
  value_or_now (some t) = t

  abbrev pub value_or_old : ℕ → Option ℕ → ℕ
  value_or_old old none = old
  value_or_old old (some h) = h

  abbrev pub with_info : BlockRow F → BlockInfo → BlockRow F
  with_info b info = record b {
    block_time = value_or_now info.block_time;
    block_height = value_or_old b.block_height info.block_height;
    status = block_processed;
  }

  -- With the price of the block: without one the run ends, and the block is not recorded.
  abbrev pub priced : BlockRow F → BlockInfo → S → F × Accounts → Option Processed
  priced b info s (price, m) =
      if f.eq_f price f.zero_f
      then some (unchanged s)
      else (let b' = record b { sol_price = price } in
          and_then (decode_block f d sv b' price m info.transactions)
            λ ts. some (record_block b' s (save_trades f d sv (group_by_pair f d sv ts []))))

  abbrev pub with_answer : BlockRow F → S → Result (Option BlockInfo) → Option Processed
  with_answer b s (err e) = some (no_info b e s)
  with_answer b s (ok none) = some (record_block (failed_block b) s [])
  with_answer b s (ok (some info)) =
      and_then
        (get_block_sol_price f sv.text_of sv.remembered (db.near info.parent_slot s)
          info.transactions [])
        (λ r. priced (with_info b info) info s r)

  abbrev pub new_block : ℕ → BlockRow F
  new_block slot = record {
    slot = slot;
    block_height = 0;
    block_time = 0;
    status = 0;
    sol_price = f.zero_f;
  }

  abbrev pub with_row : ℕ → S → FoundBlock F → Option Processed
  with_row slot s (FoundBlock.failed e) = some (unchanged s)
  with_row slot s FoundBlock.missing = with_answer (new_block slot) s (sv.block_info slot)
  with_row slot s (FoundBlock.found b) =
      if b.status == block_processed || b.status == block_skipped
      then some (unchanged s)
      else with_answer b s (sv.block_info slot)

  -- `ProcessBlock`
  unfoldable pub process_block : ℕ → S → Option Processed
  unfolding decode_block group_by_pair save_trades
  process_block slot s = if slot == 0 then some (unchanged s) else with_row slot s (db.find slot s)
