-- ===== src/Tokens/Save.antt =====
-- block/token.go: `SaveToken`. `none` is a panic, which comes before any write.
pub mod Kept
pub mod Rows
pub mod Lost
use Prim.Native.String.{◌++◌ as ◌<>◌}
use greet.Base.{
  ℕ, ◌==◌, String, str_eq, Bool, true, false, ◌||◌, if◌then◌else◌, Option, none, some, and_then,
  Error, error_text, Result, ok, err, Floats, Decimals,
}
use greet.Base.Text.{contains}
use greet.Order.Types.{sol_chain_id}
use greet.Transfers.Types.{program_token, program_token2022}
use greet.Pairs.Types.{TradeWithPair, Token}
use greet.Tokens.Types.{TokenInfo, Web, FoundToken, TokenStore}
use greet.Tokens.Uri.{Got, or_text}
use greet.Tokens.Info.{
  get_token_program, get_token_total_supply, get_token_info, get_token2022_info,
}

-- The texts of a token of what the node and the web say; those of the document go first.
abbrev pub with_texts : {F : Type 0} → TokenInfo → Token F → Token F
with_texts i t = record t {
  symbol = or_text i.uri.symbol i.symbol;
  name = or_text i.uri.name i.name;
  twitter_username = i.uri.twitter;
  website = i.uri.website;
  telegram = i.uri.telegram;
  icon = i.uri.image;
  description = i.uri.description;
}

-- A token with the mark that it has changed.
pub record Changed (F : Type 0) : Type 0 where
  pub token : Token F
  pub change : Bool

abbrev pub with_token_info : {F : Type 0} → Option TokenInfo → Changed F → Changed F
with_token_info none c = c
with_token_info (some i) c = record { token = with_texts i c.token; change = true }

-- The table after the call, and what it returns.
pub record SavedToken (F S : Type 0) : Type 0 where
  pub table : S
  pub result : Result (Token F)

module _ (f : Floats) (d : Decimals f.F) (web : Web) where
  open f use {F}

  -- What is missing of a token that the table has.
  abbrev pub with_slot : TradeWithPair F → Changed F → Changed F
  with_slot trade c =
      if c.token.slot == 0
      then record { token = record c.token { slot = trade.slot }; change = true }
      else c

  abbrev pub take_supply : Result d.D → Changed F → Changed F
  take_supply (err e) c = c
  take_supply (ok supply) c = record {
    token = record c.token { total_supply = d.to_float supply };
    change = true;
  }

  abbrev pub with_supply : Changed F → Changed F
  with_supply c =
      if f.eq_f c.token.total_supply f.zero_f
      then take_supply (get_token_total_supply web d c.token.address) c
      else c

  abbrev pub take_program : String → Changed F → Changed F
  take_program program c =
      if str_eq program program_token
      then record { token = record c.token { program = program_token }; change = true }
      else if str_eq program program_token2022
      then record { token = record c.token { program = program_token2022 }; change = true }
      else c

  abbrev pub with_program : Changed F → Changed F
  with_program c =
      if str_eq c.token.program ""
      then take_program (get_token_program web c.token.address).0 c
      else c

  abbrev pub take_info : Option Got → Changed F → Option (Changed F)
  take_info g c = and_then g (λ g. some (with_token_info g.info c))

  abbrev pub with_names : Changed F → Option (Changed F)
  with_names c =
      if str_eq c.token.symbol "" || str_eq c.token.name ""
      then (if str_eq c.token.program program_token
          then take_info (get_token_info web c.token.address) c
          else if str_eq c.token.program program_token2022
          then take_info (get_token2022_info web c.token.address) c
          else some c)
      else some c

  unfoldable pub refreshed : TradeWithPair F → Token F → Option (Changed F)
  unfolding get_token_program get_token_total_supply get_token_info get_token2022_info
  refreshed trade t =
      with_names
        (with_program (with_supply (with_slot trade (record { token = t; change = false }))))

  -- A token that the table does not have.
  abbrev pub first_token : TradeWithPair F → Token F
  first_token trade = record {
    id = 0;
    chain_id = sol_chain_id;
    address = trade.pair_info.token_addr;
    program = "";
    name = "";
    symbol = "";
    decimals = trade.pair_info.token_decimal;
    total_supply = f.zero_f;
    icon = "";
    description = "";
    twitter_username = "";
    website = "";
    telegram = "";
    is_can_add_token = 0;
    is_ca_drop_owner = 0;
    slot = trade.slot;
  }

  abbrev pub first_supply : Result d.D → Token F → Token F
  first_supply (err e) t = t
  first_supply (ok supply) t = record t { total_supply = d.to_float supply }

  abbrev pub first_info : Option Got → Token F → Option (Token F)
  first_info g t = and_then g λ g. some (elim g.info [ none ↦ t | some i ↦ with_texts i t ])

  abbrev pub with_first_program : String → Token F → Option (Token F)
  with_first_program program t =
      if str_eq program program_token2022
      then first_info (get_token2022_info web t.address) (record t { program = program_token2022 })
      else first_info (get_token_info web t.address) (record t { program = program_token })

  unfoldable pub new_token : TradeWithPair F → Option (Token F)
  unfolding get_token_program get_token_total_supply get_token_info get_token2022_info
  new_token trade =
      with_first_program (get_token_program web trade.pair_info.token_addr).0
        (first_supply (get_token_total_supply web d trade.pair_info.token_addr) (first_token trade))

module _ (f : Floats) (d : Decimals f.F) (web : Web) (db : TokenStore f.F) where
  open f use {F}
  open db use {S}

  -- The error of an update is dropped.
  abbrev pub after_token_update : S → Result S → S
  after_token_update s (ok s') = s'
  after_token_update s (err e) = s

  abbrev pub updated_token : S → Changed F → SavedToken F S
  updated_token s c = record {
    table = if c.change then after_token_update s (db.update c.token s) else s;
    result = ok c.token;
  }

  -- After a `Duplicate entry`: the row that another writer inserted is searched again.
  abbrev pub found_again : S → FoundToken F → SavedToken F S
  found_again s (FoundToken.found t) = record { table = s; result = ok t }
  found_again s FoundToken.missing = record {
    table = s;
    result = err (Error.other "record not found");
  }
  found_again s (FoundToken.failed e) = record { table = s; result = err e }

  -- The answer to the insertion of t.
  abbrev pub inserted_token : TradeWithPair F → Token F → S → Result (ℕ × S) → SavedToken F S
  inserted_token trade t s (ok (i, s')) = record { table = s'; result = ok (record t { id = i }) }
  inserted_token trade t s (err e) =
      if contains (error_text e) "Duplicate entry"
      then found_again s (db.find_again sol_chain_id trade.pair_info.token_addr s)
      else record { table = s; result = err e }

  abbrev pub save_found_token : TradeWithPair F → S → FoundToken F → Option (SavedToken F S)
  save_found_token trade s (FoundToken.found t) =
      and_then (refreshed f d web trade t) (λ c. some (updated_token s c))
  save_found_token trade s FoundToken.missing =
      and_then (new_token f d web trade) (λ t. some (inserted_token trade t s (db.insert t s)))
  save_found_token trade s (FoundToken.failed e) = some (record {
    table = s;
    result =
        err (Error.other ("SaveToken:FindOneByChainIdAddressSymbolForUpdate err:" <> error_text e));
  })

  unfoldable pub save_token : TradeWithPair F → S → Option (SavedToken F S)
  unfolding refreshed new_token
  save_token trade s = save_found_token trade s (db.find sol_chain_id trade.pair_info.token_addr s)
