-- ===== src/Market/Lookup.antt =====
-- model/solmodel/pairmodel.go: `FindOneByChainIdTokenAddress`. Go gives no order to the entries of
-- a map, so the order in which the categories are read is an argument.
pub mod Liquidity
pub mod Categories
pub mod Chosen
use greet.Base.{
  ℕ, ◌==◌, String, str_eq, Bool, ◌&&◌, if◌then◌else◌, List, [], ◌∷◌, ◌++◌, map, filter, Error,
  Result, ok, err, Floats,
}
use greet.Pairs.Types.{PairRow}

-- `xcode.NotingFoundError`
abbrev pub noting_found_error : Error
noting_found_error = Error.code 520

-- An entry of the map of categories.
pub record Category (F : Type 0) : Type 0 where
  pub name : String
  pub pairs : List (PairRow F)

-- The largest liquidity so far, and its pair.
pub record Top (F : Type 0) : Type 0 where
  pub max : F
  pub pair : PairRow F

module _ {F : Type 0} where
  -- `categoryMap[pair.Name] = append(categoryMap[pair.Name], pair)`
  pub append_to : PairRow F → List (Category F) → List (Category F)
  append_to p [] = record { name = p.name; pairs = p ∷ [] } ∷ []
  append_to p (c ∷ cs) =
      let rest = append_to p cs in
      if str_eq c.name p.name then record c { pairs = c.pairs ++ (p ∷ []) } ∷ cs else c ∷ rest

  pub category_map : List (PairRow F) → List (Category F) → List (Category F)
  unfolding append_to
  category_map [] cs = cs
  category_map (p ∷ ps) cs = category_map ps (if str_eq p.name "" then cs else append_to p cs)

  -- The rows that the query asks for.
  abbrev pub is_asked : ℕ → String → PairRow F → Bool
  is_asked chain_id token_address p = p.chain_id == chain_id && str_eq p.token_address token_address

module _ (f : Floats) where
  open f use {F}

  -- `Pair{}`
  abbrev pub no_pair : PairRow F
  no_pair = record {
    id = 0;
    chain_id = 0;
    address = "";
    name = "";
    factory_address = "";
    base_token_address = "";
    token_address = "";
    base_token_symbol = "";
    token_symbol = "";
    base_token_decimal = 0;
    token_decimal = 0;
    base_token_is_native_token = 0;
    base_token_is_token0 = 0;
    init_base_token_amount = f.zero_f;
    init_token_amount = f.zero_f;
    current_base_token_amount = f.zero_f;
    current_token_amount = f.zero_f;
    fdv = f.zero_f;
    mkt_cap = f.zero_f;
    liquidity = f.zero_f;
    token_price = f.zero_f;
    base_token_price = f.zero_f;
    block_num = 0;
    block_time = 0;
    highest_token_price = f.zero_f;
    latest_trade_time = 0;
    pump_point = f.zero_f;
    pump_launched = 0;
    pump_market_cap = f.zero_f;
    pump_owner = "";
    pump_swap_pair_addr = "";
    pump_virtual_base_token_reserves = f.zero_f;
    pump_virtual_token_reserves = f.zero_f;
    pump_status = 0;
    pump_pair_addr = "";
    slot = 0;
  }

  abbrev pub no_top : Top F
  no_top = record { max = f.zero_f; pair = no_pair }

  abbrev pub higher : Top F → PairRow F → Top F
  higher t p = if f.lt_f t.max p.liquidity then record { max = p.liquidity; pair = p } else t

  -- The loop over a category.
  pub top_of : Top F → List (PairRow F) → Top F
  top_of t [] = t
  top_of t (p ∷ ps) = top_of (higher t p) ps

  abbrev pub top_of_category : Category F → PairRow F
  unfolding top_of
  top_of_category c = (top_of no_top c.pairs).pair

  -- The loop over the pairs of the categories, which passes over PumpFun.
  pub top_but_pump : Top F → List (PairRow F) → Top F
  top_but_pump t [] = t
  top_but_pump t (p ∷ ps) = top_but_pump (if str_eq p.name "PumpFun" then t else higher t p) ps

  abbrev pub contract_result : List (PairRow F) → PairRow F
  unfolding top_but_pump
  contract_result [] = no_pair
  contract_result (p ∷ []) = p
  contract_result (p ∷ q ∷ ps) = (top_but_pump no_top (p ∷ q ∷ ps)).pair

  abbrev pub choose_pair :
      (List (Category F) → List (Category F)) → List (PairRow F) → Result (PairRow F)
  unfolding top_of top_but_pump category_map
  choose_pair in_order [] = err noting_found_error
  choose_pair in_order (p ∷ ps) =
      ok (contract_result (map top_of_category (in_order (category_map (p ∷ ps) []))))

  -- The rows of the table, or the error of the query.
  unfoldable pub find_one_by_chain_id_token_address :
      (List (Category F) → List (Category F))
      → ℕ
      → String
      → Result (List (PairRow F))
      → Result (PairRow F)
  unfolding top_of top_but_pump category_map
  find_one_by_chain_id_token_address in_order chain_id token_address (err e) = err e
  find_one_by_chain_id_token_address in_order chain_id token_address (ok table) =
      choose_pair in_order (filter (is_asked chain_id token_address) table)
