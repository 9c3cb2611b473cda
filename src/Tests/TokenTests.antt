-- ===== src/Tests/TokenTests.antt =====
-- Runs of the saving of tokens and of batches of trades, and the theorems at them.
use mathlib.Core.Path.{subst}
use mathlib.Core.Option.{some-injective}
use greet.Base.{
  ℕ, zero, suc, ◌==◌, ◌≡◌, ◌⊎◌, refl, ap, inl, inr, String, str_eq, eq_iff, true, Bool-cases,
  if◌then◌else◌, List, [], ◌∷◌, Option, none, some, Error, Result, ok, err, ok-injective, arith,
}
use greet.Order.Types.{sol_chain_id}
use greet.Transfers.Types.{program_token}
use greet.Pairs.Types.{Token}
use greet.Pairs.Save.{new_pair, save_pair}
use greet.Pairs.Batch.{Batch, save_pair_info}
use greet.Pairs.Batch.Filled.{NoToken, PairSaved, save_pair_info-composes}
use greet.Tokens.Types.{Answer, Web, FoundToken, TokenStore, no_uri_data}
use greet.Tokens.Uri.{replace_with_public_gateway}
use greet.Tokens.Save.{SavedToken, save_token}
use greet.Tokens.Save.Rows.{TokenSaved, save_token-TokenSaved}
use greet.Tokens.Save.Lost.{save_token_forgets}
use greet.Tests.Concrete.{floats, decimals}
use greet.Tests.PairTests.{table, put, no_rows, trade_at}

abbrev zeros : ℕ → List ℕ
zeros zero = []
zeros (suc n) = 0 ∷ zeros n

-- A node whose mints are whole and whose metadata accounts cannot be read.
abbrev web : Web
web = record {
  token_supply = λ a. ok (1000, 0);
  account = λ a.
      if str_eq a "meta"
      then err (Error.other "timeout")
      else ok (record { owner = program_token; bytes = zeros 82 });
  mint_error = λ bytes. none;
  metadata_key = λ a. ok "meta";
  metadata = λ bytes. err (Error.other "eof");
  parsed_account = λ a. err (Error.other "timeout");
  mint_response = λ json. ok none;
  is_key = λ a. true;
  key_literal = λ a. a;
  text_literal = λ a. a;
  status = λ uri. ok 404;
  fetch = λ uri. Answer.no_response;
  uri_data = λ body. ok no_uri_data;
}

-- A token table of at most one row.
abbrev Rows : Type 0
Rows = Option (Token ℕ)

abbrev at_key : ℕ → String → Rows → Rows
at_key c a none = none
at_key c a (some t) =
    if t.chain_id == c then (if str_eq t.address a then some t else none) else none

abbrev as_found : Rows → FoundToken ℕ
as_found none = FoundToken.missing
as_found (some t) = FoundToken.found t

abbrev token_or : Token ℕ → FoundToken ℕ → Token ℕ
token_or other (FoundToken.found t) = t
token_or other _ = other

abbrev insert_row : Token ℕ → Rows → Result (ℕ × Rows)
insert_row t none = ok (3, some (record t { id = 3 }))
insert_row t (some _) = err (Error.other "Duplicate entry")

num_self : (n : ℕ) → (n == n) ≡ true
num_self n = ground arith

text_self : (a : String) → str_eq a a ≡ true
text_self a = (eq_iff a a).1 refl

at_key_self : (t : Token ℕ) → at_key t.chain_id t.address (some t) ≡ some t
at_key_self t = rw (num_self t.chain_id) (rw (text_self t.address) refl)

as_found-found : (r : Rows) {t : Token ℕ} → as_found r ≡ FoundToken.found t → r ≡ some t
as_found-found none h = absurd cc
as_found-found (some u) h = ap (λ x. some (token_or u x)) h

at_key-some :
    (c : ℕ) (a : String) (r : Rows) {t : Token ℕ}
    → at_key c a r ≡ some t
    → (t.chain_id ≡ c) × (t.address ≡ a)
at_key-some c a none h = absurd cc
at_key-some c a (some u) h = elim (Bool-cases (u.chain_id == c)) [
  | inr n ↦ let h' : none ≡ some _ = rw n at h in absurd cc
  | inl y ↦ elim (Bool-cases (str_eq u.address a)) [
    | inr n' ↦ let h' : none ≡ some _ = rw n' at (rw y at h) in absurd cc
    | inl y' ↦
        let same = some-injective _ _ (rw y' at (rw y at h)) in
        let chain : u.chain_id ≡ c = ground arith in (cc, cc (same, (eq_iff u.address a).0 y'))
  ]
]

find_row_ok :
    (c : ℕ) (a : String) (s : Rows) {t : Token ℕ}
    → as_found (at_key c a s) ≡ FoundToken.found t
    → (at_key c a s ≡ some t) × (t.chain_id ≡ c) × (t.address ≡ a)
find_row_ok c a s h =
    let e = as_found-found (at_key c a s) h in
    let (chain, address) = at_key-some c a s e in (e, chain, address)

find_key_ok :
    (c : ℕ) (a : String) (s : Rows) {t : Token ℕ}
    → as_found (at_key c a s) ≡ FoundToken.found t
    → (t.chain_id ≡ c) × (t.address ≡ a)
find_key_ok c a s h = at_key-some c a s (as_found-found (at_key c a s) h)

insert_row_ok :
    (t : Token ℕ) (s : Rows) {i : ℕ} {s' : Rows}
    → insert_row t s ≡ ok (i, s')
    → (at_key t.chain_id t.address s ≡ none)
      × (at_key t.chain_id t.address s' ≡ some (record t { id = i }))
insert_row_ok t none h = (
  refl,
  subst (λ (p : ℕ × Rows). at_key t.chain_id t.address p.1 ≡ some (record t { id = p.0 }))
      (ok-injective _ _ h) (at_key_self (record t { id = 3 })),
)
insert_row_ok t (some x) h = absurd cc

update_row_ok :
    (t old : Token ℕ) (s : Rows) {s' : Rows}
    → ok (some t) ≡ ok s'
    → at_key t.chain_id t.address s ≡ some old
    → old.id ≡ t.id
    → at_key t.chain_id t.address s' ≡ some t
update_row_ok t old s h _ _ =
    subst (λ (r : Rows). at_key t.chain_id t.address r ≡ some t) (ok-injective _ _ h)
      (at_key_self t)

abbrev tokens : TokenStore ℕ
tokens = record {
  S = Rows;
  row = at_key;
  find = λ c a s. as_found (at_key c a s);
  find_again = λ c a s. as_found (at_key c a s);
  insert = insert_row;
  update = λ t s. ok (some t);
  find_row = find_row_ok;
  find_again_key = find_key_ok;
  insert_row = insert_row_ok;
  update_row = update_row_ok;
}

-- A token with a name, a website and an icon, and no symbol.
abbrev named : Token ℕ
named = record {
  id = 3;
  chain_id = 100000;
  address = "tok";
  program = program_token;
  name = "Token";
  symbol = "";
  decimals = 6;
  total_supply = 500;
  icon = "icon";
  description = "";
  twitter_username = "";
  website = "site";
  telegram = "";
  is_can_add_token = 0;
  is_ca_drop_owner = 0;
  slot = 4;
}

abbrev forgotten : Token ℕ
forgotten = record named { name = ""; icon = ""; website = "" }

abbrev after_forgetting : SavedToken ℕ Rows
after_forgetting = record { table = some forgotten; result = ok forgotten }

forgets : save_token floats decimals web tokens (trade_at 9) (some named) ≡ some after_forgetting
unfolding save_token
forgets = refl

-- The first row of a token: its supply comes from the node, and its texts are empty.
abbrev first : Token ℕ
first = record forgotten { total_supply = 1000; slot = 9 }

inserts :
    save_token floats decimals web tokens (trade_at 9) none
    ≡ some (record { table = some first; result = ok first })
unfolding save_token
inserts = refl

gateway :
    replace_with_public_gateway "https://nft.host/ipfs/QmAbc/1.json" "https://ipfs.io/ipfs/"
    ≡ "https://ipfs.io/ipfs/QmAbc/1.json"
unfolding replace_with_public_gateway
gateway = refl

no_gateway : replace_with_public_gateway "ipfs://QmAbc" "https://ipfs.io/ipfs/" ≡ "ipfs://QmAbc"
unfolding replace_with_public_gateway
no_gateway = refl

save_token-TokenSaved_example :
    TokenSaved floats decimals web tokens (trade_at 9) (some named) after_forgetting
unfolding save_token
save_token-TokenSaved_example =
    save_token-TokenSaved floats decimals web tokens (trade_at 9) (some named) after_forgetting refl

save_token_forgets_example :
    (x : SavedToken ℕ Rows) × (t' : Token ℕ) × (save_token floats decimals web tokens
        (trade_at 9)
        (some named)
      ≡ some x)
    × (x.result ≡ ok t')
    × (at_key sol_chain_id "tok" x.table ≡ some t')
    × (t'.name ≡ "")
    × (t'.website ≡ "")
    × (t'.icon ≡ "")
save_token_forgets_example =
    save_token_forgets floats decimals web tokens (trade_at 9) (some named) named
      (record { owner = program_token; bytes = zeros 82 }) "meta" (Error.other "timeout") refl refl
      refl refl refl refl refl refl refl (λ t'. (some t', refl))

abbrev batch : Batch floats decimals web tokens table
batch = record {
  tokens = some forgotten;
  pairs = put (record (new_pair floats (trade_at 9) (some forgotten)) { id = 7 }) no_rows;
  trades =
      record (trade_at 8) {
        mcap = 10000;
        fdv = 10000;
        pair_info = record (trade_at 8).pair_info { token_total_supply = 500 };
      }
      ∷ record (trade_at 9) {
        mcap = 10000;
        fdv = 10000;
        pair_info = record (trade_at 9).pair_info { token_total_supply = 500 };
      }
      ∷ [];
  error = none;
}

fills :
    save_pair_info floats decimals web tokens table
      (trade_at 8 ∷ trade_at 9 ∷ [])
      (some named)
      no_rows
    ≡ some batch
unfolding save_pair_info save_token save_pair new_pair
fills = refl

save_pair_info-composes_example :
    (x : SavedToken ℕ Rows) × TokenSaved floats decimals web tokens (trade_at 9) (some named) x
    × (batch.tokens ≡ x.table)
    × (NoToken floats decimals web tokens table
          (trade_at 8)
          (trade_at 9 ∷ [])
          (some named)
          no_rows
          x
          batch
        ⊎ PairSaved floats decimals web tokens table
            (trade_at 8)
            (trade_at 9 ∷ [])
            (some named)
            no_rows
            x
            batch)
save_pair_info-composes_example =
    save_pair_info-composes floats decimals web tokens table (trade_at 8) (trade_at 9 ∷ [])
      (some named) no_rows batch fills
