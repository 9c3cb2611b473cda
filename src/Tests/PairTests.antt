-- ===== src/Tests/PairTests.antt =====
-- Runs of the pair table's code, and its theorems at them.
use mathlib.Core.Path.{subst}
use greet.Base.{
  ℕ, ◌<◌, ◌≤◌, ◌==◌, ◌≡◌, ◌≢◌, inl, inr, refl, sym, ap, String, true, false, ◌&&◌, Bool-cases,
  if◌then◌else◌, [], ◌∷◌, Option, none, some, Error, error_text, Result, ok, err, ok-injective,
  arith, str_eq, eq_iff,
}
use greet.Base.Text.{contains}
use greet.Order.Types.{sol_chain_id}
use greet.Pairs.Types.{Pair, TradeWithPair, PairRow}
use greet.Pairs.Store.{Found, PairStore}
use greet.Pairs.Save.{
  new_pair, inserted, updated_pair, update_pair_db_point, stored, save_found, save_pair,
}
use greet.Pairs.Save.Rows.{SavedBy, save_pair-SavedBy}
use greet.Pairs.Save.Slots.{save_pairs, save_pairs-KeepsSlot, late_write_lowers_slot}
use greet.Tests.Concrete.{floats, decimals}

abbrev pub Row : Type 0
Row = PairRow ℕ

abbrev Table : Type 0
Table = ℕ → String → Option Row

abbrev pub put : Row → Table → Table
put r s = λ c a. if c == r.chain_id && str_eq a r.address then some r else s c a

abbrev checked : ℕ → String → Option Row → Found ℕ
checked c a none = Found.missing
checked c a (some r) =
    if r.chain_id == c
    then (if str_eq r.address a then Found.found r else Found.missing)
    else Found.missing

abbrev row_of : Row → Found ℕ → Row
row_of other (Found.found r) = r
row_of other _ = other

abbrev insert_new : Row → Table → Option Row → Result (ℕ × Table)
insert_new r s none = ok (7, put (record r { id = 7 }) s)
insert_new r s (some _) = err (Error.other "Duplicate entry")

str_eq_self : (a : String) → str_eq a a ≡ true
str_eq_self a = (eq_iff a a).1 refl

str_eq_differ : (a b : String) → b ≢ a → str_eq a b ≡ false
str_eq_differ a b h = elim (Bool-cases (str_eq a b)) [
  | inl same ↦ absurd (h (sym ((eq_iff a b).0 same)))
  | inr differ ↦ differ
]

num_eq_self : (n : ℕ) → (n == n) ≡ true
num_eq_self n = ground arith

put_same : (r : Row) (s : Table) → put r s r.chain_id r.address ≡ some r
put_same r s = rw (num_eq_self r.chain_id) (rw (str_eq_self r.address) refl)

put_other : (r : Row) (s : Table) (c : ℕ) (a : String) → r.address ≢ a → put r s c a ≡ s c a
put_other r s c a h = let e = str_eq_differ a r.address h in ground arith

pub checked-found :
    (c : ℕ) (a : String) (o : Option Row) {r : Row}
    → checked c a o ≡ Found.found r
    → (o ≡ some r) × (r.chain_id ≡ c) × (r.address ≡ a)
checked-found c a none h = absurd cc
checked-found c a (some r') h = elim (Bool-cases (r'.chain_id == c)) [
  | inr t ↦ let h' : Found.missing ≡ Found.found _ = rw t at h in absurd cc
  | inl t ↦ elim (Bool-cases (str_eq r'.address a)) [
    | inr t' ↦ let h' : Found.missing ≡ Found.found _ = rw t at (rw t' at h) in absurd cc
    | inl t' ↦
        let e : r' ≡ _ = ap (row_of r') (rw t at (rw t' at h)) in
        let chain : r'.chain_id ≡ c = ground arith in
        (ap some e, cc, cc (e, (eq_iff r'.address a).0 t'))
  ]
]

pub insert_new_row :
    (r : Row) (s : Table) (o : Option Row) {i : ℕ} {s' : Table}
    → insert_new r s o ≡ ok (i, s')
    → (o ≡ none) × (s' r.chain_id r.address ≡ some (record r { id = i }))
insert_new_row r s none h = (
  refl,
  subst (λ (p : ℕ × Table). p.1 r.chain_id r.address ≡ some (record r { id = p.0 }))
      (ok-injective _ _ h) (put_same (record r { id = 7 }) s),
)
insert_new_row r s (some x) h = absurd cc

pub insert_new_other :
    (r : Row) (s : Table) (o : Option Row) {i : ℕ} {s' : Table} (c : ℕ) (a : String)
    → insert_new r s o ≡ ok (i, s')
    → r.address ≢ a
    → s' c a ≡ s c a
insert_new_other r s none c a h differ =
    subst (λ (p : ℕ × Table). p.1 c a ≡ s c a) (ok-injective _ _ h)
      (put_other (record r { id = 7 }) s c a differ)
insert_new_other r s (some x) c a h differ = absurd cc

pub put_row_ok :
    (r old : Row) (s : Table) {s' : Table}
    → ok (put r s) ≡ ok s'
    → s r.chain_id r.address ≡ some old
    → old.id ≡ r.id
    → s' r.chain_id r.address ≡ some r
put_row_ok r old s h _ _ =
    subst (λ (t : Table). t r.chain_id r.address ≡ some r) (ok-injective _ _ h) (put_same r s)

pub put_other_ok :
    (r old : Row) (s : Table) {s' : Table} (c : ℕ) (a : String)
    → ok (put r s) ≡ ok s'
    → s r.chain_id r.address ≡ some old
    → old.id ≡ r.id
    → r.address ≢ a
    → s' c a ≡ s c a
put_other_ok r old s c a h _ _ differ =
    subst (λ (t : Table). t c a ≡ s c a) (ok-injective _ _ h) (put_other r s c a differ)

abbrev pub table : PairStore ℕ
table = record {
  S = Table;
  row = λ c a s. s c a;
  find = λ c a s. checked c a (s c a);
  find_again = λ c a s. checked c a (s c a);
  insert = λ r s. insert_new r s (s r.chain_id r.address);
  update = λ r s. ok (put r s);
  find_row = λ c a s h. checked-found c a (s c a) h;
  find_again_row = λ c a s h. checked-found c a (s c a) h;
  insert_row = λ r s h. insert_new_row r s (s r.chain_id r.address) h;
  insert_other = λ r s c a h. insert_new_other r s (s r.chain_id r.address) c a h;
  update_row = put_row_ok;
  update_other = put_other_ok;
}

abbrev info : Pair ℕ
info = record {
  chain_id = "100000";
  addr = "pair";
  base_token_addr = "sol";
  token_addr = "tok";
  base_token_symbol = "SOL";
  token_symbol = "TOK";
  base_token_decimal = 9;
  token_decimal = 6;
  base_token_is_native_token = false;
  base_token_is_token0 = false;
  token_total_supply = 10;
  init_token_amount = 100;
  init_base_token_amount = 5;
  name = "PumpFun";
  block_num = 4;
  block_time = 1000;
  current_base_token_amount = 5;
  current_token_amount = 90;
}

abbrev pub trade_at : ℕ → TradeWithPair ℕ
trade_at slot = record {
  slot = slot;
  chain_id = "100000";
  pair_addr = "pair";
  tx_hash = "hash";
  maker = "maker";
  trade_type = "buy";
  base_token_amount = 1;
  token_amount = 10;
  base_token_price_usd = 200;
  total_usd = 200;
  token_price_usd = 20;
  to = "to";
  block_time = 1000;
  swap_name = "PumpFun";
  current_token_in_pool_amount = 90;
  current_base_token_in_pool_amount = 6;
  fdv = 0;
  mcap = 0;
  pump_point = 0;
  pump_launched = false;
  pump_market_cap = 0;
  pump_owner = "";
  pump_swap_pair_addr = "";
  pump_virtual_base_token_reserves = 0;
  pump_virtual_token_reserves = 0;
  pump_status = 0;
  pump_pair_addr = "";
  pair_info = info;
}

abbrev pub no_rows : Table
no_rows = λ c a. none

-- The first trade inserts the pair's row, and the second replaces it.
abbrev first : Table
first = (save_pair floats decimals table (trade_at 4) none no_rows).table

second_slot :
    (save_pair floats decimals table (trade_at 9) none first).result
    ≡ ok (
        updated_pair floats decimals
          (trade_at 9)
          none
          (record (new_pair floats (trade_at 4) none) { id = 7 }))
unfolding save_pair save_found new_pair inserted stored updated_pair update_pair_db_point
second_slot = refl

-- A table whose first search does not see the row that another writer has just inserted.
abbrev late : PairStore ℕ
late = record table { find = λ c a s. Found.missing; find_row = λ c a s h. absurd (cc h) }

-- The insertion is refused, and the row of the other writer is returned without an error.
row_of_other_writer :
    (save_pair floats decimals late (trade_at 9) none first).result
    ≡ ok (record (new_pair floats (trade_at 4) none) { id = 7 })
unfolding save_pair save_found new_pair inserted stored updated_pair update_pair_db_point contains
    error_text
row_of_other_writer = refl

save_pair-SavedBy_example :
    SavedBy floats decimals table
      (trade_at 9)
      none
      first
      (save_pair floats decimals table (trade_at 9) none first)
save_pair-SavedBy_example = save_pair-SavedBy floats decimals table (trade_at 9) none first

abbrev pub stored_row : Row
stored_row = record (new_pair floats (trade_at 4) none) { id = 7 }

save_pairs-KeepsSlot_example :
    (r : Row) × (save_pairs floats decimals table
        ((trade_at 9, none) ∷ (trade_at 6, none) ∷ [])
        (put stored_row no_rows)
        sol_chain_id
        "pair"
      ≡ some r)
    × (4 ≤ r.slot)
unfolding new_pair
save_pairs-KeepsSlot_example =
    save_pairs-KeepsSlot floats decimals table ((trade_at 9, none) ∷ (trade_at 6, none) ∷ []) "pair"
      (put stored_row no_rows) stored_row refl

late_write_lowers_slot_example :
    let first =
      save_found floats decimals table
        (trade_at 9)
        none
        (Found.found stored_row)
        (put stored_row no_rows) in
    let second =
      save_found floats decimals table (trade_at 6) none (Found.found stored_row) first.table in
    (p q : Row) × (first.table sol_chain_id "pair" ≡ some p)
    × (p.slot ≡ 9)
    × (second.table sol_chain_id "pair" ≡ some q)
    × (q.slot ≡ 6)
    × (q.slot < p.slot)
unfolding new_pair
late_write_lowers_slot_example =
    late_write_lowers_slot floats decimals table (trade_at 6) (trade_at 9) none
      (put stored_row no_rows) stored_row refl refl (omega arith) (omega arith)
      (λ p s1. (put p s1, refl))
