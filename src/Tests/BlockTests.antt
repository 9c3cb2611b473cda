-- ===== src/Tests/BlockTests.antt =====
-- Runs of the decoding of swaps and of the processing of blocks, and the theorems at them.
use mathlib.Core.Path.{subst}
use greet.Base.{
  ℕ, ◌≤◌, ◌<◌, ◌==◌, ◌≡◌, ◌≢◌, refl, sym, ap, ◌∙◌, ◌⊎◌, inl, inr, String, true, false, Bool-cases,
  if◌then◌else◌, [], ◌∷◌, All, Option, none, some, Error, error_text, Result, ok, err, ok-injective,
  arith,
}
use greet.Base.Int.{pos}
use greet.Base.Text.{contains}
use greet.Transfers.Types.{CompiledInstruction, TokenAccount, TokenBalance, BlockTransaction, Map}
use greet.Transfers.Accounts.{fill_token_account_map, fill_decimals, parse_int}
use greet.Transfers.BlockPrice.{
  get_block_sol_price, block_prices, outer_prices, inner_prices, all_inner_prices, tx_prices,
}
use greet.Transfers.Average.{remove_min_and_max_and_calculate_average}
use greet.Pairs.Types.{TradeWithPair}
use greet.Pairs.Save.{with_caps, new_pair, save_pair}
use greet.Pump.{
  PumpEvent, BlockRow, DecodedTx, Codecs, pump_buy, pump_sell, get_pump_instruction,
  decode_pump_event, decode_pump_instruction, trade_of_event,
}
use greet.Pump.Trades.{
  TradeOf, traded, decode_pump_instruction-TradeOf, decoded_trade_updates_nothing,
}
use greet.Blocks.Fetch.{get_sol_block_info, get_sol_block_info-EndsAt, EndsAt, GoesOn}
use greet.Blocks.Process.{
  BlockInfo, FoundBlock, BlockStore, Service, Trades, Processed, process_block, decode_block,
  decode_tx, decode_all, decode_instruction, group_by_pair, save_trades,
}
use greet.Blocks.Runs.{process_blocks, process_blocks-terminal}
use greet.Blocks.Outcome.{Outcome, process_block-Outcome}
use greet.Tests.Concrete.{floats, decimals}
use greet.Tests.PairTests.{table, no_rows, put, stored_row}

abbrev event : PumpEvent
event = record {
  sign = 0;
  mint = "tok";
  sol_amount = 6;
  token_amount = 3;
  is_buy = true;
  user = "maker";
  time_stamp = 0;
  virtual_sol_reserves = 30;
  virtual_token_reserves = 90;
}

abbrev lib : Codecs
lib = record {
  base64_std = λ s. ok (1 ∷ []);
  base64_raw = λ s. err (Error.other "illegal base64 data");
  borsh_event = λ bytes. ok event;
}

abbrev swap_account : TokenAccount
swap_account = record {
  owner = "maker";
  token_account_address = "maker_tok";
  token_address = "tok";
  token_decimal = 6;
  pre_value = pos 0;
  post_value = pos 3;
  closed = false;
  init = false;
  post_value_ui_string = "";
  pre_value_ui_string = "";
}

-- The bytes of 0xeaebda01123d0666, the least significant first.
abbrev buy : CompiledInstruction
buy = record {
  program_id_index = 4;
  accounts = 0 ∷ 0 ∷ 0 ∷ 0 ∷ 1 ∷ 2 ∷ 3 ∷ [];
  bytes = 102 ∷ 6 ∷ 61 ∷ 18 ∷ 1 ∷ 218 ∷ 235 ∷ 234 ∷ 9 ∷ [];
}

-- A line of more than 100 bytes with the prefix of an event.
abbrev event_log : String
event_log =
    "Program data: vdt/007mAAAAAAAAAAAAAAAAAAAAAAAAAAAAAAAAAAAAAAAAAAAAAAAAAAAAAAAAAAAAAAAAAAAAAAAAAAAAAAAAAAAAAAAA"

abbrev tx : BlockTransaction
tx = record {
  account_keys =
      "pair" ∷ "receiver" ∷ "maker_tok" ∷ "maker" ∷ "6EF8rrecthR5Dkzon8Nwu78hRvfCKubJ14M5uBEwF6P"
      ∷ [];
  signature = "sig";
  instructions = buy ∷ [];
  inner_instructions = [];
  pre_token_balances = [];
  post_token_balances = [];
  log_messages = event_log ∷ [];
  failed = false;
}

abbrev block : BlockRow ℕ
block = record {
  slot = 44;
  block_height = 40;
  block_time = 1700000000;
  status = 1;
  sol_price = 200;
}

abbrev dtx : DecodedTx ℕ
dtx = record {
  block = block;
  sol_price = 200;
  token_accounts = ("maker_tok", swap_account) ∷ [];
  tx = tx;
  tx_hash = "sig";
  pump_events = [];
  pump_event_index = 0;
}

abbrev dtx_after : DecodedTx ℕ
dtx_after = record dtx { pump_events = event ∷ []; pump_event_index = 1 }

abbrev trade : TradeWithPair ℕ
trade =
    trade_of_event floats decimals 1073000191 15 dtx_after event "pair" "receiver" "maker"
      swap_account

decodes :
    decode_pump_instruction floats decimals 1073000191 15 lib dtx buy
    ≡ some (traded floats decimals 1073000191 15 lib dtx_after trade)
unfolding decode_pump_instruction get_pump_instruction decode_pump_event trade_of_event
decodes = refl

decode_pump_instruction-TradeOf_example :
    ((get_pump_instruction buy.bytes ≡ pump_buy) ⊎ (get_pump_instruction buy.bytes ≡ pump_sell))
    × TradeOf floats decimals 1073000191 15 lib dtx buy dtx_after trade
decode_pump_instruction-TradeOf_example =
    decode_pump_instruction-TradeOf floats decimals 1073000191 15 lib dtx buy decodes

decoded_trade_updates_nothing_example :
    save_pair floats decimals table trade none (put stored_row no_rows) ≡ record {
      trade = with_caps floats stored_row trade;
      table = put stored_row no_rows;
      result = ok stored_row;
    }
unfolding trade_of_event new_pair
decoded_trade_updates_nothing_example =
    decoded_trade_updates_nothing floats decimals 1073000191 15 lib table dtx buy none
      (put stored_row no_rows) decodes refl

abbrev nothing_swapped : PumpEvent
nothing_swapped = record event { token_amount = 0 }

abbrev zero_lib : Codecs
zero_lib = record lib { borsh_event = λ bytes. ok nothing_swapped }

-- The third answer is the block.
abbrev answers : ℕ → Result ℕ
answers n = if n == 3 then ok 7 else err (Error.other "Block not available for slot 5")

third_answer : get_sol_block_info (λ n. false) (Error.other "canceled") answers ≡ ok 7
unfolding get_sol_block_info contains error_text
third_answer = refl

get_sol_block_info-EndsAt_example :
    (k : ℕ) × (1 ≤ k)
    × (k ≤ 11)
    × EndsAt
        (λ n. false)
        (Error.other "canceled")
        answers
        k
        (get_sol_block_info (λ n. false) (Error.other "canceled") answers)
    × ((j : ℕ) → 1 ≤ j → j < k → GoesOn (λ n. false) answers j)
get_sol_block_info-EndsAt_example =
    get_sol_block_info-EndsAt (λ n. false) (Error.other "canceled") answers

-- The block table as a function.
abbrev Rows : Type 0
Rows = ℕ → Option (BlockRow ℕ)

abbrev put_block : BlockRow ℕ → Rows → Rows
put_block b s = λ k. if k == b.slot then some b else s k

abbrev found_at : ℕ → Option (BlockRow ℕ) → FoundBlock ℕ
found_at k none = FoundBlock.missing
found_at k (some b) =
    if b.slot == k then FoundBlock.found b else FoundBlock.failed (Error.other "corrupt")

abbrev block_of : BlockRow ℕ → FoundBlock ℕ → BlockRow ℕ
block_of other (FoundBlock.found b) = b
block_of other _ = other

same_num : (n : ℕ) → (n == n) ≡ true
same_num n = ground arith

found_at_row :
    (k : ℕ) (o : Option (BlockRow ℕ)) {b : BlockRow ℕ}
    → found_at k o ≡ FoundBlock.found b
    → (o ≡ some b) × (b.slot ≡ k)
found_at_row k none h = absurd cc
found_at_row k (some b') {b} h = elim (Bool-cases (b'.slot == k)) [
  | inr t ↦
      let h' : FoundBlock.failed (Error.other "corrupt") ≡ FoundBlock.found b = rw t at h in
      absurd cc
  | inl t ↦
      let e : b' ≡ b = ap (block_of b') (rw t at h) in
      (ap some e, ap (λ x. x.slot) (sym e) ∙ ground arith)
]

found_at_missing : (k : ℕ) (o : Option (BlockRow ℕ)) → found_at k o ≡ FoundBlock.missing → o ≡ none
found_at_missing k none h = refl
found_at_missing k (some b) h = elim (Bool-cases (b.slot == k)) [
  | inl t ↦ let h' : FoundBlock.found b ≡ FoundBlock.missing = rw t at h in absurd cc
  | inr t ↦
      let h' : FoundBlock.failed (Error.other "corrupt") ≡ FoundBlock.missing = rw t at h in
      absurd cc
]

put_block_row :
    (b : BlockRow ℕ) (s : Rows) {s' : Rows} → ok (put_block b s) ≡ ok s' → s' b.slot ≡ some b
put_block_row b s h =
    subst (λ (t : Rows). t b.slot ≡ some b) (ok-injective _ _ h) (rw (same_num b.slot) refl)

put_block_other :
    (b : BlockRow ℕ) (s : Rows) {s' : Rows} (k : ℕ)
    → ok (put_block b s) ≡ ok s'
    → b.slot ≢ k
    → s' k ≡ s k
put_block_other b s k h differ = subst (λ (t : Rows). t k ≡ s k) (ok-injective _ _ h) (ground arith)

abbrev blocks : BlockStore ℕ
blocks = record {
  S = Rows;
  row = λ k s. s k;
  find = λ k s. found_at k (s k);
  near = λ k s. none;
  insert = λ b s. ok (put_block b s);
  find_row = λ k s h. found_at_row k (s k) h;
  find_missing = λ k s h. found_at_missing k (s k) h;
  insert_row = put_block_row;
  insert_other = put_block_other;
}

abbrev maker_balance : TokenBalance
maker_balance = record {
  account_index = 2;
  mint = "tok";
  owner = "maker";
  amount = "3";
  decimals = 6;
  ui_amount_string = "";
}

abbrev info : BlockInfo
info = record {
  parent_slot = 43;
  block_time = some 1700000000;
  block_height = some 40;
  transactions = record tx { post_token_balances = maker_balance ∷ [] } ∷ [];
}

abbrev service : ℕ → Service ℕ
service price = record {
  lib = lib;
  text_of = λ bytes. "";
  block_info = λ slot. ok (some info);
  now = 1800000000;
  remembered = price;
  virtual_init_token = 1073000191;
  init_sol = 15;
}

abbrev no_blocks : Rows
no_blocks = λ k. none

abbrev processed : Processed floats decimals (service 200) blocks
processed = record { table = put_block block no_blocks; saved = ("pair", trade ∷ []) ∷ [] }

run : process_block floats decimals (service 200) blocks 44 no_blocks ≡ some processed
unfolding process_block decode_block decode_tx decode_all decode_instruction group_by_pair
    save_trades get_block_sol_price remove_min_and_max_and_calculate_average trade_of_event
    decode_pump_instruction get_pump_instruction decode_pump_event fill_token_account_map
    fill_decimals parse_int block_prices outer_prices all_inner_prices inner_prices tx_prices
run = refl

process_block-Outcome_example : Outcome floats decimals (service 200) blocks 44 no_blocks processed
process_block-Outcome_example =
    process_block-Outcome floats decimals (service 200) blocks 44 no_blocks run

run_again :
    process_blocks floats decimals (service 200) blocks (44 ∷ []) (put_block block no_blocks)
    ≡ some (put_block block no_blocks, (44, []) ∷ [])
unfolding process_block
run_again = refl

process_blocks-terminal_example :
    (put_block block no_blocks 44 ≡ some block)
    × All
        (λ (e : ℕ × Map (Trades floats decimals (service 200))). e.0 ≡ 44 → e.1 ≡ [])
        ((44, []) ∷ [])
process_blocks-terminal_example =
    process_blocks-terminal floats decimals (service 200) blocks (44 ∷ []) 44
      (put_block block no_blocks) {b = block} refl refl run_again
