-- ===== src/Tests/Concrete.antt =====
-- Concrete stand-ins: floats and decimals as whole numbers, and order tables as two functions.
use mathlib.Core.Path.{subst}
use mathlib.Core.Option.{some-injective}
use greet.Base.{
  ℕ, true, false, ◌+◌, ◌-◌, ◌*◌, ◌/◌, ◌==◌, ltb, ◌≡◌, refl, inr, Bool, if◌then◌else◌, str_eq,
  Option, none, some, Error, ok, err, Floats, Decimals, List, arith,
}
use greet.Base.Int.{pos, pos_part}
use greet.Order.Types.{TradeOrder}
use greet.Order.Store.{Store, Column, copy_columns}

abbrev pub floats : Floats
floats = record {
  F = ℕ;
  zero_f = 0;
  two_f = 2;
  max_f = 1000000;
  neg_max_f = 0;
  of_nat = λ n. n;
  add_f = λ a b. a + b;
  mul_f = λ a b. a * b;
  div_f = λ a b. a / b;
  lt_f = ltb;
  eq_f = ◌==◌;
}

abbrev pub decimals : Decimals ℕ
decimals = record {
  D = ℕ;
  of_string = λ s. if str_eq s "3" then ok 3 else err (Error.other "can't convert");
  of_float = λ x. x;
  is_number = λ x. true;
  of_int = pos_part;
  scaled = λ n e. pos_part n;
  add_d = λ a b. a + b;
  mul_d = λ a b. a * b;
  sub_d = λ a b. a - b;
  div_d = λ a b. a / b;
  is_positive = λ a. ltb 0 a;
  is_zero = λ a. a == 0;
  to_float = λ a. a;
  int_part = pos;
  to_text = λ a. "3";
}

abbrev pub Order : Type 0
Order = TradeOrder ℕ ℕ

pub record Tables : Type 0 where
  pub next_id : ℕ
  pub rows : ℕ → Option Order
  pub logs : ℕ → ℕ → Option Order

abbrev pub put_row : ℕ → Order → Tables → Tables
put_row i o s = record s { rows = λ j. if j == i then some o else s.rows j }

abbrev pub put_log : Order → Tables → Tables
put_log o s = record s {
  logs =
      λ j st. if j == o.id then (if st == o.status then some o else s.logs j st) else s.logs j st;
}

abbrev update_found : List Column → Order → Option Order → Tables → Tables
update_found cs o none s = s
update_found cs o (some old) s = put_row o.id (copy_columns cs o old) s

-- Tables that refuse an update when their flag says so.
abbrev pub update_if : Bool → List Column → Order → Tables → Option Tables
update_if works cs o s = if works then some (update_found cs o (s.rows o.id) s) else none

test_self : (i : ℕ) → (i == i) ≡ true
test_self i = ground arith

abbrev save_new : Order → Tables → Option (ℕ × Tables)
save_new o s = some (s.next_id, put_row s.next_id (record o { id = s.next_id }) s)

pub save_new_row :
    (o : Order) (s : Tables) {i : ℕ} {s' : Tables}
    → save_new o s ≡ some (i, s')
    → s'.rows i ≡ some (record o { id = i })
save_new_row o s {i} {s'} e =
    subst (λ (r : ℕ × Tables). r.1.rows r.0 ≡ some (record o { id = r.0 })) (some-injective _ _ e)
      (rw (test_self s.next_id))

pub put_log_lem :
    (o : Order) (s : Tables) {s' : Tables}
    → some (put_log o s) ≡ some s'
    → s'.logs o.id o.status ≡ some o
put_log_lem o s e =
    subst (λ (t : Tables). t.logs o.id o.status ≡ some o) (some-injective _ _ e)
      (rw (test_self o.id) (rw (test_self o.status)))

pub put_log_rows :
    (o : Order) (s : Tables) {s' : Tables} (i : ℕ)
    → some (put_log o s) ≡ some s'
    → s'.rows i ≡ s.rows i
put_log_rows o s i e = subst (λ (t : Tables). t.rows i ≡ s.rows i) (some-injective _ _ e) refl

pub update_if_row :
    (works : Bool) (cs : List Column) (o old : Order) (s : Tables) {s' : Tables}
    → update_if works cs o s ≡ some s'
    → s.rows o.id ≡ some old
    → s'.rows o.id ≡ some (copy_columns cs o old)
update_if_row false cs o old s u r = cc
update_if_row true cs o old s u r =
    subst (λ (t : Tables). t.rows o.id ≡ some (copy_columns cs o old)) (some-injective _ _ u)
      (rw r (rw (test_self o.id)))

abbrev pub store : Bool → Store ℕ ℕ
store works = record {
  S = Tables;
  row = λ i s. s.rows i;
  logged = λ i st s. s.logs i st;
  save = save_new;
  update_select = update_if works;
  upsert_log = λ o s. some (put_log o s);
  transaction = λ f s. f s;
  save_row = save_new_row;
  update_row = update_if_row works;
  log_row = put_log_rows;
  log_logged = put_log_lem;
  transaction_atomic = λ f s. inr refl;
}
