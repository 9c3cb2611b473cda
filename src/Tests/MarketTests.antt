-- ===== src/Tests/MarketTests.antt =====
-- The market service at a table of three pairs, read with its first two categories exchanged.
use mathlib.Core.Path.{subst}
use mathlib.Core.List.{Permᴰ}
use greet.Base.{
  some, ℕ, ltb, ◌≡◌, ◌⊎◌, refl, String, str_eq, if◌then◌else◌, ok-injective, true, false, filter,
  List, [], ◌∷◌, Error, ok, err, Ordered, arith,
}
use greet.Base.Text.{itoa}
use greet.Order.Types.{TradeOrder, PairInfo, sol_chain_id}
use greet.Order.Flow.{positive_amount, found_pair, base_price, new_order, accept, PairDecimals}
use greet.Pairs.Types.{PairRow}
use greet.Market.Lookup.{
  Category, noting_found_error, is_asked, no_pair, find_one_by_chain_id_token_address,
}
use greet.Market.Lookup.Chosen.{Chosen, find_one_by_chain_id_token_address-Chosen}
use greet.Market.Service.{
  MarketServer, get_shard_table_name_by_time, get_pair_info_by_token, market_of,
}
use greet.Market.Service.Orders.{OfRow, accept-Chosen, accept_needs_base_price}
use greet.Tests.Concrete.{floats, decimals, store}
use greet.Tests.OrderTests.{chain, request}

not_below_self : (a : ℕ) → ltb a a ≡ false
not_below_self a = ground arith

below_trans : (a b c : ℕ) → ltb a b ≡ true → ltb b c ≡ true → ltb a c ≡ true
below_trans a b c h h' = ground arith

not_below_trans : (a b c : ℕ) → ltb a b ≡ false → ltb b c ≡ false → ltb a c ≡ false
not_below_trans a b c h h' = ground arith

abbrev ordered : Ordered floats
ordered = record {
  not_below_self = not_below_self;
  below_trans = below_trans;
  not_below_trans = not_below_trans;
}

abbrev row : String → String → ℕ → PairRow ℕ
row address name liquidity = record (no_pair floats) {
  chain_id = sol_chain_id;
  token_address = "tok";
  address = address;
  name = name;
  liquidity = liquidity;
  base_token_price = 2;
  token_price = 40;
}

abbrev rows : List (PairRow ℕ)
rows = row "curve" "PumpFun" 90 ∷ row "small" "RaydiumV4" 10 ∷ row "large" "RaydiumV4" 30 ∷ []

abbrev swapped : List (Category ℕ) → List (Category ℕ)
swapped [] = []
swapped (c ∷ []) = c ∷ []
swapped (c ∷ d ∷ cs) = d ∷ c ∷ cs

swapped-perm : (cs : List (Category ℕ)) → Permᴰ cs (swapped cs)
swapped-perm [] = Permᴰ.nil
swapped-perm (c ∷ []) = Permᴰ.cons refl Permᴰ.nil
swapped-perm (c ∷ d ∷ cs) = Permᴰ.swap refl refl

abbrev server : MarketServer floats
server = record {
  in_order = swapped;
  pairs = ok rows;
  trades = λ table. ok [];
  parse_time = λ text.
      if str_eq text ""
      then err (Error.other "cannot parse")
      else ok (record { year = 2025; month = 3; day = 14; unix = 70 });
  received_error = λ e. e;
  received_nil = ok 0;
}

-- The Raydium pair with the largest liquidity is chosen, not that of PumpFun.
chooses_raydium :
    find_one_by_chain_id_token_address floats swapped sol_chain_id "tok" (ok rows)
    ≡ ok (row "large" "RaydiumV4" 30)
unfolding find_one_by_chain_id_token_address
chooses_raydium = refl

-- Pairs without liquidity are no pair at all.
no_liquidity :
    find_one_by_chain_id_token_address floats swapped sol_chain_id "tok"
      (ok (row "a" "PumpFun" 0 ∷ []))
    ≡ ok (no_pair floats)
unfolding find_one_by_chain_id_token_address
no_liquidity = refl

shard_name :
    get_shard_table_name_by_time "trade" (record { year = 2025; month = 3; day = 14; unix = 70 })
    ≡ "trade_2025_03_14"
unfolding get_shard_table_name_by_time itoa
shard_name = refl

find_one_by_chain_id_token_address-Chosen_example :
    let asked = filter (is_asked sol_chain_id "tok") rows in
    let result = find_one_by_chain_id_token_address floats swapped sol_chain_id "tok" (ok rows) in
    ((asked ≡ []) × (result ≡ err noting_found_error))
    ⊎ ((r : PairRow ℕ) × (result ≡ ok r) × Chosen floats asked r)
find_one_by_chain_id_token_address-Chosen_example =
    find_one_by_chain_id_token_address-Chosen floats ordered swapped swapped-perm sol_chain_id "tok"
      rows

abbrev raydium : PairInfo ℕ
raydium = record {
  address = "large";
  name = "RaydiumV4";
  base_token_address = "";
  token_address = "tok";
  base_token_decimal = 0;
  token_decimal = 0;
  fdv = 0;
  token_price = 40;
  base_token_price = 2;
}

abbrev raydium_decimals : PairDecimals ℕ
raydium_decimals = record { cap = 0; base = 2; token = 40 }

abbrev raydium_order : TradeOrder ℕ ℕ
unfolding new_order
raydium_order =
    new_order floats decimals (store true) (market_of floats server) chain request 3 raydium
      raydium_decimals 2

accepted :
    accept floats decimals (store true) (market_of floats server) chain request
    ≡ some (ok (raydium_order, raydium))
unfolding accept positive_amount found_pair base_price market_of get_pair_info_by_token
    find_one_by_chain_id_token_address raydium_order
accepted = refl

accept-Chosen_example :
    (r : PairRow ℕ) × (sol_chain_id ≡ sol_chain_id)
    × Chosen floats (filter (is_asked sol_chain_id "tok") rows) r
    × OfRow floats decimals (store true) server chain request raydium_order r
accept-Chosen_example =
    accept-Chosen floats decimals (store true) server chain ordered swapped-perm rows refl request
      raydium_order raydium accepted

accept_needs_base_price_example :
    (decimals.is_zero (decimals.of_float raydium.base_token_price) ≡ false)
    × (raydium_order.order_base_price ≡ decimals.of_float raydium.base_token_price)
accept_needs_base_price_example =
    accept_needs_base_price floats decimals (store true) server chain (Error.other "cannot parse")
      refl (λ p h. subst (λ p. ltb 0 p ≡ false) (ok-injective _ _ h) refl) request raydium_order
      raydium accepted
