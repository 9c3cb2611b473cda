-- ===== src/Tokens/Save/Lost.antt =====
-- What `SaveToken` loses of a token whose metadata cannot be read.
use greet.Base.{
  ◌==◌, ltb, ◌≡◌, refl, sym, ap, ◌∙◌, String, str_eq, true, false, ◌||◌, length, take, if_true,
  if_false, none, some, and_then, Error, ok, err, Floats, Decimals, arith,
}
use greet.Order.Types.{sol_chain_id}
use greet.Transfers.Types.{program_token}
use greet.Pairs.Types.{TradeWithPair, Token}
use greet.Tokens.Types.{Account, Web, FoundToken, TokenStore}
use greet.Tokens.Uri.{Got}
use greet.Tokens.Info.{
  empty_info, with_mint_account, with_mint, with_meta_key, with_meta_account, get_token_info,
}
use greet.Tokens.Save.{
  Changed, with_texts, with_token_info, SavedToken, with_slot, with_supply, with_program, take_info,
  refreshed, after_token_update, updated_token, save_found_token, save_token,
}
use greet.Tokens.Save.Kept.{unmarked, before_names, before_names-Stage}

module _ (web : Web) (address : String) (a : Account) (key : String) (e : Error)
    (account : web.account address ≡ ok a) (long : (length a.bytes == 0) ≡ false)
    (whole : ltb (length a.bytes) 82 ≡ false) (mint : web.mint_error (take 82 a.bytes) ≡ none)
    (found_key : web.metadata_key address ≡ ok key) (refused : web.account key ≡ err e) where
  -- Where the metadata account of a mint cannot be read, the token comes with empty texts beside
  -- the error.
  get_token_info_empty :
      (g : Got) × (get_token_info web address ≡ some g) × (g.info ≡ some empty_info)
  unfolding get_token_info
  get_token_info_empty = (
    with_meta_account web address (err e),
    ap (with_mint_account web address) account
        ∙ if_false _ _ long
        ∙ if_false _ _ whole
        ∙ ap (λ m. some (with_mint web address m)) mint
        ∙ ap (λ k. some (with_meta_key web address k)) found_key
        ∙ ap (λ r. some (with_meta_account web address r)) refused,
    refl,
  )

module _ (f : Floats) (d : Decimals f.F) (web : Web) where
  open f use {F}

  with_slot-symbol :
      (trade : TradeWithPair F) (c : Changed F)
      → (with_slot f d web trade c).token.symbol ≡ c.token.symbol
  with_slot-symbol trade c = ground arith

  with_supply-symbol : (c : Changed F) → (with_supply f d web c).token.symbol ≡ c.token.symbol
  with_supply-symbol c = ground arith

  with_program-symbol : (c : Changed F) → (with_program f d web c).token.symbol ≡ c.token.symbol
  with_program-symbol c = ground arith

  before_names-symbol :
      (trade : TradeWithPair F) (t : Token F)
      → (before_names f d web trade t).token.symbol ≡ t.symbol
  before_names-symbol trade t =
      with_program-symbol (with_supply f d web (with_slot f d web trade (unmarked f d web t)))
      ∙ with_supply-symbol (with_slot f d web trade (unmarked f d web t))
      ∙ with_slot-symbol trade (unmarked f d web t)

  refreshed_empty :
      (trade : TradeWithPair F) (t : Token F) (g : Got)
      → t.symbol ≡ ""
      → t.program ≡ program_token
      → get_token_info web t.address ≡ some g
      → g.info ≡ some empty_info
      → (t' : Token F) × (refreshed f d web trade t ≡ some (record { token = t'; change = true }))
        × (t'.name ≡ "")
        × (t'.website ≡ "")
        × (t'.icon ≡ "")
        × (t'.address ≡ t.address)
        × (t'.id ≡ t.id)
        × (t'.chain_id ≡ t.chain_id)
  unfolding refreshed
  refreshed_empty trade t g no_symbol program got empty =
      let c = before_names f d web trade t in
      let kept = (before_names-Stage f d web trade t).kept in
      let lacks : str_eq c.token.symbol "" ≡ true =
        ap (λ s. str_eq s "") (before_names-symbol trade t ∙ no_symbol) in
      let has_program : str_eq t.program "" ≡ false = ap (λ p. str_eq p "") program in
      let of_token : str_eq c.token.program program_token ≡ true =
        ap (λ p. str_eq p program_token) (kept.program has_program ∙ program) in
      (
        with_texts empty_info c.token,
        if_true _ _ (ap (λ b. b || str_eq c.token.name "") lacks)
            ∙ if_true _ _ of_token
            ∙ ap (λ a. take_info f d web (get_token_info web a) c) kept.address
            ∙ ap (λ g. take_info f d web g c) got
            ∙ ap (λ i. some (with_token_info i c)) empty,
        refl,
        refl,
        refl,
        kept.address,
        kept.id,
        kept.chain_id,
      )

module _ (f : Floats) (d : Decimals f.F) (web : Web) (db : TokenStore f.F) where
  open f use {F}
  open db use {S}

  -- A token of the first token program that has no symbol yet loses its name, its website and its
  -- icon, in memory and in the table, when its mint can be read and its metadata account cannot:
  -- what comes beside the error is taken for the metadata.
  pub save_token_forgets :
      (trade : TradeWithPair F) (s : S) (t : Token F) (a : Account) (key : String) (e : Error)
      → db.find sol_chain_id trade.pair_info.token_addr s ≡ FoundToken.found t
      → t.symbol ≡ ""
      → t.program ≡ program_token
      → web.account t.address ≡ ok a
      → (length a.bytes == 0) ≡ false
      → ltb (length a.bytes) 82 ≡ false
      → web.mint_error (take 82 a.bytes) ≡ none
      → web.metadata_key t.address ≡ ok key
      → web.account key ≡ err e
      → ((t' : Token F) → (s' : S) × (db.update t' s ≡ ok s'))
      → (x : SavedToken F S) × (t' : Token F) × (save_token f d web db trade s ≡ some x)
        × (x.result ≡ ok t')
        × (db.row sol_chain_id trade.pair_info.token_addr x.table ≡ some t')
        × (t'.name ≡ "")
        × (t'.website ≡ "")
        × (t'.icon ≡ "")
  unfolding save_token
  save_token_forgets trade s t a key e found no_symbol program account long whole mint meta refused
        works =
      let (row, chain, address) = db.find_row _ _ s found in
      let (g, got, empty) =
        get_token_info_empty web t.address a key e account long whole mint meta refused in
      let (t', fresh, name, website, icon, address', id', chain') =
        refreshed_empty f d web trade t g no_symbol program got empty in
      let (s', u) = works t' in
      let row' : db.row t'.chain_id t'.address s ≡ some t = cc in
      let after : db.row t'.chain_id t'.address s' ≡ some t' =
        db.update_row t' t s u row' (sym id') in
      (
        record { table = s'; result = ok t' },
        t',
        ap (save_found_token f d web db trade s) found
            ∙ ap (λ o. and_then o (λ c. some (updated_token f d web db s c))) fresh
            ∙ ap (λ r. some (record { table = after_token_update f d web db s r; result = ok t' }))
                u,
        refl,
        cc,
        name,
        website,
        icon,
      )
