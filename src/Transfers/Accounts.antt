-- ===== src/Transfers/Accounts.antt =====
-- block/price.go: `FillTokenAccountMap` and `DecodeInitAccountInstruction`, which keep the token
-- accounts of a block, with the changes of their balances. `none` is the panic of an index out of
-- range. A `range` over the map goes in the order in which its keys were added; the loops here that
-- do so give the same map in every order where all accounts of a mint agree on its decimals.
pub mod Decimals
use greet.Base.{
  ℕ, zero, suc, ◌+◌, ◌-◌, ◌*◌, ◌^◌, ◌==◌, ltb, leb, String, Bool, true, false, ◌&&◌, ◌||◌, not,
  if◌then◌else◌, str_eq, List, [], ◌∷◌, length, get_elem?, drop, Option, none, some, and_then,
}
use greet.Base.Int.{ℤ, pos, negsuc, sub_ℕ}
use greet.Base.Text.{codes}
use greet.Transfers.Types.{
  CompiledInstruction, InnerInstruction, TokenBalance, BlockTransaction, TokenAccount, Map, lookup,
  set, program_token,
}
use greet.Transfers.Decode.{key_at}

-- The value of a run of digits (48 is '0'), or nothing for another character.
abbrev digits : List ℕ → ℕ → Option ℕ
digits [] n = some n
digits (c ∷ cs) n = if leb 48 c && leb c 57 then digits cs (n * 10 + (c - 48)) else none

abbrev number : List ℕ → Option ℕ
number [] = none
number (c ∷ cs) = digits (c ∷ cs) 0

-- `strconv.ParseInt(s, 10, 64)` with its error dropped: 0 for a text that is no number, and the
-- nearest int64 for one that is out of range.
abbrev positive_int : Option ℕ → ℤ
positive_int none = pos 0
positive_int (some n) = if ltb n (2 ^ 63) then pos n else pos (2 ^ 63 - 1)

abbrev negative_int : Option ℕ → ℤ
negative_int none = pos 0
negative_int (some n) = if leb n (2 ^ 63) then sub_ℕ 0 n else sub_ℕ 0 (2 ^ 63)

abbrev signed_int : List ℕ → ℤ
signed_int [] = pos 0
signed_int (c ∷ cs) =
    if c == 45
    then negative_int (number cs)
    else if c == 43
    then positive_int (number cs)
    else positive_int (number (c ∷ cs))

unfoldable pub parse_int : String → ℤ
parse_int s = signed_int (codes s)

abbrev pub eq_ℤ : ℤ → ℤ → Bool
eq_ℤ (pos a) (pos b) = a == b
eq_ℤ (negsuc a) (negsuc b) = a == b
eq_ℤ _ _ = false

abbrev pub Accounts : Type 0
Accounts = Map TokenAccount

-- The map and `hasTokenChange`.
pub record Filled : Type 0 where
  pub accounts : Accounts
  pub has_change : Bool

-- The first loop: accounts with a balance before the transaction, closed until a balance after it
-- is found.
abbrev pub pre_account : String → TokenBalance → TokenAccount
pre_account key b = record {
  owner = b.owner;
  token_account_address = key;
  token_address = b.mint;
  token_decimal = b.decimals;
  pre_value = parse_int b.amount;
  post_value = pos 0;
  closed = true;
  init = false;
  post_value_ui_string = "";
  pre_value_ui_string = b.ui_amount_string;
}

abbrev pub fill_pre : List String → List TokenBalance → Accounts → Option Accounts
fill_pre keys [] m = some m
fill_pre keys (b ∷ bs) m =
    and_then (get_elem? keys b.account_index)
      λ key. fill_pre keys bs (set key (pre_account key b) m)

-- The second loop.
abbrev pub post_account : String → TokenBalance → TokenAccount
post_account key b = record {
  owner = b.owner;
  token_account_address = key;
  token_address = b.mint;
  token_decimal = b.decimals;
  pre_value = pos 0;
  post_value = parse_int b.amount;
  closed = false;
  init = true;
  post_value_ui_string = b.ui_amount_string;
  pre_value_ui_string = "";
}

abbrev pub see_post : String → TokenBalance → Filled → Option TokenAccount → Filled
see_post key b s none = record {
  accounts = set key (post_account key b) s.accounts;
  has_change = true;
}
see_post key b s (some a) = record {
  accounts = set key (record a { closed = false; post_value = parse_int b.amount }) s.accounts;
  has_change = s.has_change || not (eq_ℤ (parse_int b.amount) a.pre_value);
}

abbrev pub fill_post : List String → List TokenBalance → Filled → Option Filled
fill_post keys [] s = some s
fill_post keys (b ∷ bs) s =
    and_then (get_elem? keys b.account_index)
      λ key. fill_post keys bs (see_post key b s (lookup s.accounts key))

-- The account that an instruction opens; an account of the same mint stays.
abbrev new_account : String → String → String → TokenAccount
new_account key mint owner = record {
  owner = owner;
  token_account_address = key;
  token_address = mint;
  token_decimal = 0;
  pre_value = pos 0;
  post_value = pos 0;
  closed = false;
  init = true;
  post_value_ui_string = "";
  pre_value_ui_string = "";
}

abbrev has_mint : String → Option TokenAccount → Bool
has_mint mint none = false
has_mint mint (some a) = str_eq a.token_address mint

abbrev open_account : String → String → String → Accounts → Accounts
open_account key mint owner m =
    if has_mint mint (lookup m key) then m else set key (new_account key mint owner) m

-- The keys of a block as texts, and the text of a key given by its bytes
-- (`common.PublicKeyFromBytes(…).String()` of github.com/blocto/solana-go-sdk).
module _ (text_of : List ℕ → String) where
  abbrev open_at : List String → List ℕ → Accounts → (String → Option String) → Option Accounts
  open_at keys accounts m owner_of = and_then (key_at keys accounts 0) λ key.
      and_then (key_at keys accounts 1)
        λ mint. and_then (owner_of mint) (λ owner. some (open_account key mint owner m))

  -- Tags: 1 is `InstructionInitializeAccount`, 16 and 18 are its second and third form, which say
  -- the owner in the data.
  abbrev init_by_tag : List String → CompiledInstruction → Accounts → ℕ → List ℕ → Option Accounts
  init_by_tag keys i m tag rest =
      if tag == 1
      then (if ltb (length i.accounts) 3
          then some m
          else open_at keys i.accounts m (λ mint. key_at keys i.accounts 2))
      else if tag == 16 || tag == 18
      then (if ltb (length i.accounts) 2 || ltb (length i.bytes) 33
          then some m
          else open_at keys i.accounts m (λ mint. some (text_of rest)))
      else some m

  abbrev init_by_data : List String → CompiledInstruction → Accounts → List ℕ → Option Accounts
  init_by_data keys i m [] = some m
  init_by_data keys i m (tag ∷ rest) = init_by_tag keys i m tag rest

  unfoldable pub decode_init_account_instruction :
      List String → CompiledInstruction → Accounts → Option Accounts
  decode_init_account_instruction keys i m = init_by_data keys i m i.bytes

  -- The third and the fourth loop: the instructions of the token program.
  abbrev pub fill_init : List String → List CompiledInstruction → Accounts → Option Accounts
  fill_init keys [] m = some m
  fill_init keys (i ∷ is) m = and_then (get_elem? keys i.program_id_index) λ program.
      and_then
        (if str_eq program program_token then decode_init_account_instruction keys i m else some m)
        (λ m'. fill_init keys is m')

  abbrev pub fill_inner : List String → List InnerInstruction → Accounts → Option Accounts
  fill_inner keys [] m = some m
  fill_inner keys (inner ∷ rest) m =
      and_then (fill_init keys inner.instructions m) (λ m'. fill_inner keys rest m')

-- The last two loops: the decimals of each mint, and the accounts that lack them.
abbrev pub decimal_map : Accounts → Map ℕ → Map ℕ
decimal_map [] ds = ds
decimal_map ((k, a) ∷ m) ds =
    decimal_map m (if a.token_decimal == 0 then ds else set a.token_address a.token_decimal ds)

abbrev pub decimal_or_zero : Option ℕ → ℕ
decimal_or_zero none = 0
decimal_or_zero (some d) = d

abbrev pub with_decimal : Map ℕ → TokenAccount → TokenAccount
with_decimal ds a =
    if a.token_decimal == 0
    then record a { token_decimal = decimal_or_zero (lookup ds a.token_address) }
    else a

abbrev pub with_decimals : Map ℕ → Accounts → Accounts
with_decimals ds [] = []
with_decimals ds ((k, a) ∷ m) = (k, with_decimal ds a) ∷ with_decimals ds m

unfoldable pub fill_decimals : Accounts → Accounts
fill_decimals m = with_decimals (decimal_map m []) m

unfoldable pub fill_token_account_map :
    (List ℕ → String) → BlockTransaction → Accounts → Option Filled
unfolding fill_decimals
fill_token_account_map text_of tx m =
    and_then (fill_pre tx.account_keys tx.pre_token_balances m) λ m1.
      and_then
        (fill_post tx.account_keys tx.post_token_balances
          (record { accounts = m1; has_change = false }))
        λ s. and_then (fill_init text_of tx.account_keys tx.instructions s.accounts) λ m2.
          and_then (fill_inner text_of tx.account_keys tx.inner_instructions m2)
            λ m3. some (record { accounts = fill_decimals m3; has_change = s.has_change })
