-- ===== src/Solana/Send.antt =====
-- solana/txManager.go and jito.go: `convertCreateMarketTx`, `CreateMarketTx`, `Sign`, `simulate`,
-- `SendViaJitoRetry` and `SignByTeeAndSend`.
pub mod Attempts
use Prim.Native.String.{◌++◌ as ◌<>◌}
use greet.Base.{
  ℕ, zero, suc, ◌+◌, ◌==◌, ltb, String, Bool, true, false, ◌||◌, if◌then◌else◌, str_eq, List, [],
  ◌∷◌, length, Option, none, some, Error, error_text, described, after_text, Result, ok, err, ◌>>=◌,
  Decimals,
}
use greet.Base.Text.{contains, itoa}
use greet.Order.Types.{CreateMarketTx, raydium_v4, raydium_clmm, raydium_cpmm, pump_fun}
use greet.Solana.Types.{SwapTx, Instruction, Manager}
use greet.Solana.Dex.{pump_swap, create_market_order_dex}
use greet.Solana.PumpFun.{create_market_order_pumpfun}

-- A program that is not said is the token program.
abbrev pub program_or_default : Manager → String → String
program_or_default tm p = if str_eq p "" then tm.token_program_id else p

-- `convertCreateMarketTx`
unfoldable pub convert_create_market_tx : Manager → CreateMarketTx → Result SwapTx
convert_create_market_tx tm p = do
  wallet ← tm.public_key p.user_wallet_address
  in_mint ← tm.public_key p.in_token_ca
  out_mint ← tm.public_key p.out_token_ca
  in_program ← tm.public_key (program_or_default tm p.in_token_program)
  out_program ← tm.public_key (program_or_default tm p.out_token_program)
  ok (record {
    user_id = p.user_id;
    chain_id = p.chain_id;
    user_wallet_id = p.user_wallet_id;
    user_wallet_account = wallet;
    amount_in = p.amount_in;
    is_anti_mev = p.is_anti_mev;
    slippage = p.slippage;
    is_auto_slippage = p.is_auto_slippage;
    gas_type = p.gas_type;
    trade_pool_name = p.trade_pool_name;
    in_decimal = p.in_decimal;
    out_decimal = p.out_decimal;
    in_mint = in_mint;
    out_mint = out_mint;
    pair_addr = p.pair_addr;
    price = p.price;
    use_price_limit = p.use_price_limit;
    in_token_program = in_program;
    out_token_program = out_program;
  })

-- The node, the key in the environment and the libraries that make, sign and send a transaction.
-- A simulation that fails gives its logs. Jito answers each attempt anew.
pub record Network : Type 1 where
  pub Tx : Type 0
  pub latest_blockhash : Result String
  pub new_transaction : List Instruction → String → String → Result Tx
  pub private_key : String
  pub base58 : String → Result (List ℕ)
  pub message_bytes : Tx → Result (List ℕ)
  pub ed25519_sign : List ℕ → List ℕ → String
  pub simulation : Tx → Result (Option String)
  pub jito_send : ℕ → Tx → String → Result String
  pub node_send : Tx → String → Result String
  pub simulate_only : Bool

abbrev pub internal_error : Error
internal_error = Error.code 515

-- How often a transaction was handed to Jito or the node, and the result.
pub record Sending : Type 0 where
  pub sends : ℕ
  pub result : Result String

abbrev pub unsent : Result String → Sending
unsent r = record { sends = 0; result = r }

module _ (net : Network) where
  open net use {Tx}

  -- `Sign`: the transaction and the signature that all its signers get.
  unfoldable pub sign : Manager → List Instruction → String → Result (Tx × String)
  sign tm is address = do
    hash ← described (after_text "failed to get latest blockhash: ") net.latest_blockhash
    payer ← tm.public_key address
    tx ← net.new_transaction is hash payer
    key ←
        if str_eq net.private_key ""
        then err (Error.other "PRIVATE_KEY environment variable not set")
        else ok net.private_key
    bytes ← described (after_text "failed to decode base58 private key: ") (net.base58 key)
    right ←
        if length bytes == 64
        then ok bytes
        else err
            (Error.other ("invalid private key length: expected 64, got " <> itoa (length bytes)))
    message ← described (λ _. internal_error) (net.message_bytes tx)
    ok (tx, net.ed25519_sign right message)

  -- `simulate`
  abbrev pub simulated : Result (Option String) → Option Error
  simulated (err e) = some e
  simulated (ok none) = none
  simulated (ok (some logs)) = some (Error.other logs)

  abbrev pub rate_limited : Result String → Bool
  rate_limited (ok sig) = false
  rate_limited (err e) = contains (error_text e) "32097"

  -- The loop of `SendViaJitoRetry` from attempt i on, with the attempts that are left.
  jito_loop : ℕ → Tx → String → ℕ → Result String → Sending
  jito_loop zero tx sig i last = record { sends = i; result = last }
  jito_loop (suc left) tx sig i last =
      let answer = net.jito_send i tx sig in
      let later = jito_loop left tx sig (suc i) answer in
      if rate_limited answer then later else record { sends = suc i; result = answer }

  abbrev pub after_simulation : Option Error → Sending → Sending
  after_simulation none s = s
  after_simulation (some e) s = unsent (err e)

  unfoldable pub send_via_jito_retry : Tx → String → Sending
  unfolding jito_loop
  send_via_jito_retry tx sig =
      after_simulation (simulated (net.simulation tx)) (jito_loop 5 tx sig 0 (ok ""))

  -- `SignByTeeAndSend` after the signing.
  abbrev pub send_signed : Bool → Result (Tx × String) → Sending
  send_signed anti_mev (err e) = unsent (err e)
  send_signed anti_mev (ok (tx, sig)) =
      if net.simulate_only
      then after_simulation (simulated (net.simulation tx)) (unsent (ok sig))
      else if anti_mev
      then send_via_jito_retry tx sig
      else record { sends = 1; result = net.node_send tx sig }

  module _ {F : Type 0} (d : Decimals F) (fee_percent : d.D) (tm : Manager) where
    -- The builder of the pool.
    abbrev pub instructions_of : SwapTx → Result (List Instruction)
    instructions_of tx =
        if str_eq tx.trade_pool_name raydium_v4
          || str_eq tx.trade_pool_name raydium_clmm
          || str_eq tx.trade_pool_name raydium_cpmm
          || str_eq tx.trade_pool_name pump_swap
        then create_market_order_dex d fee_percent tm tx
        else if str_eq tx.trade_pool_name pump_fun
        then create_market_order_pumpfun d fee_percent tm tx
        else err (Error.other ("TradePoolName:" <> tx.trade_pool_name <> " not support"))

    abbrev pub send_built : SwapTx → Result (List Instruction) → Sending
    send_built tx (err e) = unsent (err e)
    send_built tx (ok is) = send_signed tx.is_anti_mev (sign tm is tx.user_wallet_account)

    -- `CreateMarketTx`
    unfoldable pub create_swap_tx : SwapTx → Sending
    create_swap_tx tx = send_built tx (instructions_of tx)

    abbrev pub send_converted : Result SwapTx → Sending
    send_converted (err e) = unsent (err e)
    send_converted (ok tx) = create_swap_tx tx

    -- `CreateMarketOrder`
    unfoldable pub create_market_order : CreateMarketTx → Sending
    create_market_order p = send_converted (convert_create_market_tx tm p)
