-- ===== src/Solana/Unsigned.antt =====
-- solana/txManager.go: `BuildUnsignedTransaction` and `SignAndSendTransaction`, by which the order
-- flow sends.
pub mod Sent
use Prim.Native.String.{◌++◌ as ◌<>◌}
use greet.Base.{
  ℕ, zero, suc, ◌==◌, String, ◌||◌, if◌then◌else◌, str_eq, List, [], length, Option, none, some,
  Error, described, after_text, Result, ok, err, ◌>>=◌, Decimals,
}
use greet.Base.Text.{itoa}
use greet.Order.Types.{CreateMarketTx, raydium_v4, raydium_clmm, raydium_cpmm, pump_fun}
use greet.Solana.Types.{SwapTx, Instruction, Manager}
use greet.Solana.Dex.{pump_swap, create_market_order_dex}
use greet.Solana.PumpFun.{create_market_order_pumpfun}
use greet.Solana.Send.{Network, convert_create_market_tx, simulated}

-- The codecs of a transaction: how many signers it asks for, its bytes with empty signatures, base
-- 64.
pub record Wire (net : Network) : Type 0 where
  pub signers : net.Tx → ℕ
  pub marshal : net.Tx → Result (List ℕ)
  pub unmarshal : List ℕ → Result net.Tx
  pub base64 : List ℕ → String
  pub base64_decode : String → Result (List ℕ)

module _ (net : Network) (wire : Wire net) where
  open net use {Tx}

  module _ {F : Type 0} (d : Decimals F) (fee_percent : d.D) (tm : Manager) where
    -- The builder of the pool; for PumpSwap there is none.
    unfoldable pub unsigned_instructions : SwapTx → Result (List Instruction)
    unsigned_instructions tx =
        if str_eq tx.trade_pool_name pump_fun
        then create_market_order_pumpfun d fee_percent tm tx
        else if str_eq tx.trade_pool_name raydium_v4
            || str_eq tx.trade_pool_name raydium_clmm
            || str_eq tx.trade_pool_name raydium_cpmm
        then create_market_order_dex d fee_percent tm tx
        else if str_eq tx.trade_pool_name pump_swap
        then ok []
        else err (Error.other ("TradePoolName:" <> tx.trade_pool_name <> " not support"))

    -- `BuildUnsignedTransaction`
    unfoldable pub build_unsigned_transaction : CreateMarketTx → Result String
    unfolding unsigned_instructions
    build_unsigned_transaction p = do
      swap ← convert_create_market_tx tm p
      is ← unsigned_instructions swap
      hash ← described (after_text "failed to get latest blockhash: ") net.latest_blockhash
      payer ← tm.public_key p.user_wallet_address
      tx ← net.new_transaction is hash payer
      bytes ← wire.marshal tx
      ok (wire.base64 bytes)

  abbrev pub decoded_transaction : String → Result Tx
  decoded_transaction unsigned = do
    bytes ← described (after_text "failed to decode transaction: ") (wire.base64_decode unsigned)
    described (after_text "failed to unmarshal transaction: ") (wire.unmarshal bytes)

  -- The key of the environment, 64 bytes long.
  abbrev pub known_key : Result String
  known_key =
      if str_eq net.private_key ""
      then err (Error.other "PRIVATE_KEY environment variable not set")
      else ok net.private_key

  abbrev pub whole_key : List ℕ → Result (List ℕ)
  whole_key bytes =
      if length bytes == 64
      then ok bytes
      else err
          (Error.other ("invalid private key length: expected 64, got " <> itoa (length bytes)))

  -- The signature that all signers get.
  unfoldable pub signature_of : Tx → Result String
  signature_of tx = do
    key ← known_key
    bytes ← described (after_text "failed to decode base58 private key: ") (net.base58 key)
    right ← whole_key bytes
    message ←
        described (after_text "failed to marshal transaction message: ") (net.message_bytes tx)
    ok (net.ed25519_sign right message)

  -- `tx.Signatures[0]`, which panics where no signer is asked for.
  abbrev pub first_signature : ℕ → String → Option (Result String)
  first_signature zero sig = none
  first_signature (suc n) sig = some (ok sig)

  abbrev pub after_simulating : Tx → String → Option Error → Option (Result String)
  after_simulating tx sig (some e) = some (err e)
  after_simulating tx sig none = first_signature (wire.signers tx) sig

  abbrev pub deliver : Tx → String → Option (Result String)
  deliver tx sig =
      if net.simulate_only
      then after_simulating tx sig (simulated net (net.simulation tx))
      else some (described (after_text "failed to send transaction: ") (net.node_send tx sig))

  abbrev pub deliver_signed : Tx → Result String → Option (Result String)
  deliver_signed tx (err e) = some (err e)
  deliver_signed tx (ok sig) = deliver tx sig

  abbrev pub sign_decoded : Result Tx → Option (Result String)
  unfolding signature_of
  sign_decoded (err e) = some (err e)
  sign_decoded (ok tx) = deliver_signed tx (signature_of tx)

  -- `SignAndSendTransaction`, which does not look at the wallet. `none` is a panic.
  unfoldable pub sign_and_send_transaction : String → String → Option (Result String)
  unfolding signature_of
  sign_and_send_transaction unsigned wallet = sign_decoded (decoded_transaction unsigned)
