-- ===== src/Solana/Unsigned/Sent.antt =====
-- The unsigned transaction that is signed and sent is the one that `Sign` makes.
use mathlib.Core.Path.{subst}
use greet.Base.{
  ℕ, ◌≡◌, refl, sym, ap, ◌∙◌, ◌⊎◌, inl, inr, String, Bool, ◌||◌, str_eq, eq_iff, true, false,
  Bool-cases, if_true, if_false, List, [], Option, some, Error, Result, ok, err, >>=-eq-ok,
  ok-injective, described, described-eq_ok, after_text, Decimals,
}
use greet.Order.Types.{CreateMarketTx, raydium_v4, raydium_clmm, raydium_cpmm, pump_fun}
use greet.Solana.Types.{SwapTx, Instruction, Manager}
use greet.Solana.Dex.{pump_swap}
use greet.Solana.Send.{Network, convert_create_market_tx, sign, instructions_of}
use greet.Solana.Unsigned.{
  Wire, unsigned_instructions, build_unsigned_transaction, decoded_transaction, known_key,
  whole_key, signature_of, deliver, deliver_signed, sign_decoded, sign_and_send_transaction,
}

abbrev dex_pool : String → Bool
dex_pool n = str_eq n raydium_v4 || str_eq n raydium_clmm || str_eq n raydium_cpmm

abbrev dex_or_swap : String → Bool
dex_or_swap n =
    str_eq n raydium_v4 || str_eq n raydium_clmm || str_eq n raydium_cpmm || str_eq n pump_swap

or_last : (a b c d : Bool) → (a || b || c) ≡ true → (a || b || c || d) ≡ true
or_last true b c d h = refl
or_last false true c d h = refl
or_last false false true d h = refl
or_last false false false d h = cc

dex_pool_or_swap : (n : String) → dex_pool n ≡ true → dex_or_swap n ≡ true
dex_pool_or_swap n =
    or_last (str_eq n raydium_v4) (str_eq n raydium_clmm) (str_eq n raydium_cpmm)
      (str_eq n pump_swap)

module _ (net : Network) (wire : Wire net) where
  open net use {Tx}

  module _ {F : Type 0} (d : Decimals F) (fee_percent : d.D) (tm : Manager) where
    -- The instructions are those that `CreateMarketTx` builds, but none at all for PumpSwap.
    abbrev pub Instructions : SwapTx → List Instruction → Type 0
    Instructions tx is =
        ((str_eq tx.trade_pool_name pump_swap ≡ true) × (is ≡ []))
        ⊎ (instructions_of net d fee_percent tm tx ≡ ok is)

    unsigned_instructions-Instructions :
        (tx : SwapTx) {is : List Instruction}
        → unsigned_instructions net wire d fee_percent tm tx ≡ ok is
        → Instructions tx is
    unfolding unsigned_instructions
    unsigned_instructions-Instructions tx {is} h =
        elim (Bool-cases (str_eq tx.trade_pool_name pump_fun)) [
          | inl pump ↦
              let name = (eq_iff tx.trade_pool_name pump_fun).0 pump in
              inr
                (if_false _ _ (ap dex_or_swap name) ∙ if_true _ _ pump ∙ sym (if_true _ _ pump) ∙ h)
          | inr other ↦ elim (Bool-cases (dex_pool tx.trade_pool_name)) [
            | inl dex ↦ inr (
                if_true _ _ (dex_pool_or_swap tx.trade_pool_name dex)
                ∙ sym (if_true _ _ dex)
                ∙ sym (if_false _ _ other)
                ∙ h)
            | inr not_dex ↦
                let rest = sym (if_false _ _ not_dex) ∙ sym (if_false _ _ other) ∙ h in
                elim (Bool-cases (str_eq tx.trade_pool_name pump_swap)) [
                  | inl swap ↦ inl (swap, sym (ok-injective _ _ (sym (if_true _ _ swap) ∙ rest)))
                  | inr unknown ↦ absurd (cc (sym (if_false _ _ unknown) ∙ rest))
                ]
          ]
        ]

  signature_of-sign :
      (tm : Manager) (is : List Instruction) (address hash payer : String) (tx : Tx) {sig : String}
      → net.latest_blockhash ≡ ok hash
      → tm.public_key address ≡ ok payer
      → net.new_transaction is hash payer ≡ ok tx
      → signature_of net wire tx ≡ ok sig
      → sign net tm is address ≡ ok (tx, sig)
  unfolding signature_of sign
  signature_of-sign tm is address hash payer tx has_hash has_payer made h =
      let (key, e1, h1) = >>=-eq-ok (known_key net wire) _ h in
      let (bytes, e2, h2) =
        >>=-eq-ok (described (after_text "failed to decode base58 private key: ") (net.base58 key))
          _ h1 in
      let (right, e3, h3) = >>=-eq-ok (whole_key net wire bytes) _ h2 in
      let (message, e4, h4) =
        >>=-eq-ok
          (described (after_text "failed to marshal transaction message: ") (net.message_bytes tx))
          _ h3 in
      rw (has_hash, has_payer, made, e1, described-eq_ok _ _ e2, e3, described-eq_ok _ _ e4)
        (ap (λ s. ok (tx, s)) (ok-injective _ _ h4))

  -- A round trip of a transaction through its bytes and base 64.
  abbrev pub RoundTrip : Type 0
  RoundTrip =
      (tx : Tx) (bytes : List ℕ)
      → wire.marshal tx ≡ ok bytes
      → (wire.base64_decode (wire.base64 bytes) ≡ ok bytes) × (wire.unmarshal bytes ≡ ok tx)

  decoded_transaction-base64 :
      (tx : Tx) (bytes : List ℕ)
      → RoundTrip
      → wire.marshal tx ≡ ok bytes
      → decoded_transaction net wire (wire.base64 bytes) ≡ ok tx
  decoded_transaction-base64 tx bytes trip h =
      let (decodes, unmarshals) = trip tx bytes h in rw (decodes, unmarshals) refl

  -- What the sending of an unsigned transaction of these instructions comes to.
  abbrev pub SentSigned : Manager → String → List Instruction → Option (Result String) → Type 0
  SentSigned tm address is r =
      ((e : Error) × (r ≡ some (err e)))
      ⊎ ((tx : Tx) × (sig : String) × (sign net tm is address ≡ ok (tx, sig))
          × (r ≡ deliver net wire tx sig))

  deliver_signed-SentSigned :
      (tm : Manager) (address : String) (is : List Instruction) (hash payer : String) (tx : Tx)
      → net.latest_blockhash ≡ ok hash
      → tm.public_key address ≡ ok payer
      → net.new_transaction is hash payer ≡ ok tx
      → (r : Result String) → signature_of net wire tx ≡ r
      → SentSigned tm address is (deliver_signed net wire tx r)
  deliver_signed-SentSigned tm address is hash payer tx has_hash has_payer made (err e) h =
      inl (e, refl)
  deliver_signed-SentSigned tm address is hash payer tx has_hash has_payer made (ok sig) h =
      inr (tx, sig, signature_of-sign tm is address hash payer tx has_hash has_payer made h, refl)

  module _ {F : Type 0} (d : Decimals F) (fee_percent : d.D) (tm : Manager) where
    -- Where base 64 and the bytes of a transaction can be read back, an unsigned transaction that
    -- is built of an order's parameters is signed and sent, for whatever wallet, as the transaction
    -- and with the signature that `Sign` makes of its instructions, or the result is an error; the
    -- instructions are those that `CreateMarketTx` builds, but none at all for PumpSwap.
    pub sign_and_send_transaction-SentSigned :
        (p : CreateMarketTx) (unsigned wallet : String)
        → RoundTrip
        → build_unsigned_transaction net wire d fee_percent tm p ≡ ok unsigned
        → (swap : SwapTx) × (is : List Instruction) × (convert_create_market_tx tm p ≡ ok swap)
          × Instructions d fee_percent tm swap is
          × SentSigned tm p.user_wallet_address is
              (sign_and_send_transaction net wire unsigned wallet)
    unfolding build_unsigned_transaction sign_and_send_transaction
    sign_and_send_transaction-SentSigned p unsigned wallet trip h =
        let (swap, e1, h1) = >>=-eq-ok (convert_create_market_tx tm p) _ h in
        let (is, e2, h2) = >>=-eq-ok (unsigned_instructions net wire d fee_percent tm swap) _ h1 in
        let (hash, e3, h3) =
          >>=-eq-ok (described (after_text "failed to get latest blockhash: ") net.latest_blockhash)
            _ h2 in
        let (payer, e4, h4) = >>=-eq-ok (tm.public_key p.user_wallet_address) _ h3 in
        let (tx, e5, h5) = >>=-eq-ok (net.new_transaction is hash payer) _ h4 in
        let (bytes, e6, h6) = >>=-eq-ok (wire.marshal tx) _ h5 in
        let decoded : decoded_transaction net wire unsigned ≡ ok tx =
          ap (decoded_transaction net wire) (sym (ok-injective _ _ h6))
          ∙ decoded_transaction-base64 tx bytes trip e6 in
        (
          swap,
          is,
          e1,
          unsigned_instructions-Instructions d fee_percent tm swap e2,
          subst (SentSigned tm p.user_wallet_address is) (sym (ap (sign_decoded net wire) decoded))
              (deliver_signed-SentSigned tm p.user_wallet_address is hash payer tx
                (described-eq_ok _ _ e3) e4 e5 (signature_of net wire tx) refl),
        )
