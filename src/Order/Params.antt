-- ===== src/Order/Params.antt =====
-- createmarketorderlogic.go: the parameters of a swap, one attempt to send it (`createAndSendTx`),
-- and the reading of a failed attempt's text (`convertSwapErr`).
use greet.Base.{
  ℕ, ◌%◌, ◌^◌, String, Bool, ◌||◌, not, ◌==◌, if◌then◌else◌, str_eq, Option, some, and_then, Error,
  error_text, Result, err, go_on, Decimals,
}
use greet.Base.Text.{contains}
use greet.Order.Types.{
  TradeOrder, CreateMarketTx, PairInfo, type_limit, swap_sell, sol_chain_id, request_err,
  balance_not_enough, token_account_frozen, slippage_limit, pump_pool_zero_err,
  pool_liquidity_not_enough, pump_fun, raydium_v4, raydium_clmm, raydium_cpmm,
}

-- What the order flow reads of the Solana side. The network answers each attempt anew, so the
-- calls take the number of the attempt. `none` is a panic of the manager.
pub record Chain : Type 0 where
  pub token_program_id : String
  pub has_tx_manager : Bool
  pub build_unsigned : ℕ → CreateMarketTx → Option (Result String)
  pub sign_and_send : ℕ → String → String → Option (Result String)

-- `createAndSendTx`
unfoldable pub create_and_send_tx : Chain → ℕ → CreateMarketTx → Option (Result String)
create_and_send_tx c attempt param =
    if param.chain_id == sol_chain_id
    then (if c.has_tx_manager
        then and_then (c.build_unsigned attempt param) (λ built.
          go_on built (λ unsigned. c.sign_and_send attempt unsigned param.user_wallet_address))
        else some
            (err (Error.other "SolTxMananger is nil - check if Sol configuration is enabled")))
    else some (err request_err)

-- The `switch poolName` at the end of `convertSwapErr`; its first two cases are empty.
abbrev pool_err : String → String → Error → Error
pool_err pool text e =
    if str_eq pool raydium_v4 || str_eq pool raydium_cpmm
    then e
    else if str_eq pool raydium_clmm
    then (if contains text "InsufficientLiquidityForDirection"
        then pool_liquidity_not_enough
        else e)
    else if str_eq pool pump_fun
    then (if contains text "TooLittleSolReceived"
          || contains text "attempt to subtract with overflow"
        then pump_pool_zero_err
        else e)
    else e

unfoldable pub convert_swap_err : String → Error → Error
unfolding contains error_text
convert_swap_err pool e =
    let text = error_text e in
    if contains text "liquidity"
    then pool_liquidity_not_enough
    else if contains text "insufficient"
    then balance_not_enough
    else if contains text "frozen"
    then token_account_frozen
    else if contains text "slippage" || contains text "TooLittleOutputReceived"
    then slippage_limit
    else pool_err pool text e

module _ {F : Type 0} (d : Decimals F) where
  -- The first part of `createMarketTxWithPairInfo`. The decimals of the pair are read there and
  -- dropped: the parameters say 9 and 9.
  unfoldable pub build_param : Chain → TradeOrder F d.D → PairInfo F → CreateMarketTx
  build_param c o pair =
      let sells = o.swap_type == swap_sell in
      let program = if o.chain_id == sol_chain_id then c.token_program_id else "" in
      record {
        user_id = o.uid % 2 ^ 64;
        chain_id = o.chain_id % 2 ^ 64;
        user_wallet_id = o.wallet_index % 2 ^ 32;
        user_wallet_address = o.wallet_address;
        amount_in = d.to_text o.order_amount;
        is_anti_mev = not (o.is_anti_mev == 0);
        is_auto_slippage = not (o.is_auto_slippage == 0);
        slippage = o.slippage % 2 ^ 32;
        gas_type = o.gas_type % 2 ^ 32;
        trade_pool_name = pair.name;
        in_decimal = 9;
        out_decimal = 9;
        in_token_ca = if sells then pair.token_address else pair.base_token_address;
        out_token_ca = if sells then pair.base_token_address else pair.token_address;
        pair_addr = pair.address;
        price = d.to_text o.order_price_base;
        use_price_limit = o.trade_type == type_limit || str_eq o.dex_name raydium_clmm;
        in_token_program = program;
        out_token_program = program;
      }
