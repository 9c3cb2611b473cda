-- ===== src/Solana/Send/Attempts.antt =====
-- How often a swap is sent.
use greet.Base.{
  ℕ, zero, suc, ◌+◌, ◌≤◌, ◌<◌, ◌==◌, ◌≡◌, refl, sym, ◌∙◌, ◌⊎◌, inl, inr, String, Bool, true, false,
  Bool-cases, if◌then◌else◌, if_true, if_false, List, Option, none, some, Option-cases, Error,
  Result, ok, err, Decimals, arith,
}
use mathlib.Core.Path.{subst}
use greet.Solana.Types.{SwapTx, Instruction, Manager}
use greet.Solana.Send.{
  Network, Sending, unsent, sign, simulated, rate_limited, jito_loop, after_simulation,
  send_via_jito_retry, send_signed, instructions_of, send_built, create_swap_tx,
}

module _ (net : Network) where
  open net use {Tx}

  -- The loop ends after the k-th send: its answer is returned, and it is the first that is not a
  -- rate limit, or the k-th is the last.
  abbrev pub SentAt : Tx → String → ℕ → Sending → Type 0
  SentAt tx sig first s =
      (k : ℕ) × (first ≤ k)
      × (k ≤ 4)
      × (s.sends ≡ k + 1)
      × (s.result ≡ net.jito_send k tx sig)
      × ((rate_limited net (net.jito_send k tx sig) ≡ false) ⊎ (k ≡ 4))
      × ((j : ℕ) → first ≤ j → j < k → rate_limited net (net.jito_send j tx sig) ≡ true)

  jito_loop-SentAt :
      (left : ℕ) (tx : Tx) (sig : String) (i : ℕ) (last : Result String)
      → suc left + i ≡ 5
      → SentAt tx sig i (jito_loop net (suc left) tx sig i last)
  unfolding jito_loop
  jito_loop-SentAt zero tx sig i last h =
      elim (Bool-cases (rate_limited net (net.jito_send i tx sig))) [
        | inl limited ↦ rw limited (
          i,
          omega arith,
          omega arith,
          omega arith,
          refl,
          inr (omega arith),
          λ j le lt. absurd (omega arith),
        )
        | inr final ↦ rw final (
          i,
          omega arith,
          omega arith,
          omega arith,
          refl,
          inl final,
          λ j le lt. absurd (omega arith),
        )
      ]
  jito_loop-SentAt (suc left) tx sig i last h =
      elim (Bool-cases (rate_limited net (net.jito_send i tx sig))) [
        | inr final ↦ rw final (
          i,
          omega arith,
          omega arith,
          omega arith,
          refl,
          inl final,
          λ j le lt. absurd (omega arith),
        )
        | inl limited ↦
            let (k, le, bound, sends, result, end, before) =
              jito_loop-SentAt left tx sig (suc i) (net.jito_send i tx sig) (omega arith) in
            subst (SentAt tx sig i) (sym (if_true _ _ limited)) (
              k,
              omega arith,
              bound,
              sends,
              result,
              end,
              λ j lower upper. elim (Bool-cases (i == j)) [
                | inl same ↦
                    let q : i ≡ j = ground arith in
                    subst (λ n. rate_limited net (net.jito_send n tx sig) ≡ true) q limited
                | inr differ ↦ before j (ground arith) upper
              ],
            )
      ]

  -- A transaction whose simulation fails is not sent to Jito; another one is sent at most five
  -- times, again only while the answer is a rate limit, and the last answer is returned.
  pub send_via_jito_retry-SentAt :
      (tx : Tx) (sig : String)
      → ((e : Error) × (simulated net (net.simulation tx) ≡ some e)
          × (send_via_jito_retry net tx sig ≡ unsent (err e)))
        ⊎ ((simulated net (net.simulation tx) ≡ none)
            × SentAt tx sig 0 (send_via_jito_retry net tx sig))
  unfolding send_via_jito_retry
  send_via_jito_retry-SentAt tx sig = elim (Option-cases (simulated net (net.simulation tx))) [
    | inl passed ↦ inr (passed, rw passed (jito_loop-SentAt 4 tx sig 0 (ok "") (omega arith)))
    | inr (e, refused) ↦ inl (e, refused, rw refused refl)
  ]

  -- Bounds on the sends, and an error where nothing is sent though it should be.
  abbrev pub Sound : Bool → Sending → Type 0
  Sound anti_mev s =
      (s.sends ≤ 5)
      × (anti_mev ≡ false → s.sends ≤ 1)
      × (net.simulate_only ≡ true → s.sends ≡ 0)
      × (net.simulate_only ≡ false → s.sends ≡ 0 → (e : Error) × (s.result ≡ err e))

  unsent-Sound : (anti_mev : Bool) (e : Error) → Sound anti_mev (unsent (err e))
  unsent-Sound anti_mev e = (omega arith, λ _. omega arith, λ _. refl, λ _ _. (e, refl))

  jito-Sound :
      (tx : Tx) (sig : String)
      → net.simulate_only ≡ false
      → Sound true (send_via_jito_retry net tx sig)
  jito-Sound tx sig real = elim (send_via_jito_retry-SentAt tx sig) [
    | inl (e, refused, same) ↦ subst (Sound true) (sym same) (unsent-Sound true e)
    | inr (passed, (k, le, bound, sends, result, end, before)) ↦ (
      omega arith,
      λ t. absurd cc,
      λ t. absurd (cc (sym t ∙ real)),
      λ _ zero_sends. absurd (omega arith),
    )
  ]

  simulated-Sound :
      (anti_mev : Bool) (sig : String) (o : Option Error)
      → net.simulate_only ≡ true
      → Sound anti_mev (after_simulation net o (unsent (ok sig)))
  simulated-Sound anti_mev sig none h =
      (omega arith, λ _. omega arith, λ _. refl, λ f _. absurd (cc (sym f ∙ h)))
  simulated-Sound anti_mev sig (some e) h = unsent-Sound anti_mev e

  node-Sound :
      (tx : Tx) (sig : String)
      → net.simulate_only ≡ false
      → Sound false (record { sends = 1; result = net.node_send tx sig })
  node-Sound tx sig real =
      (omega arith, λ _. omega arith, λ t. absurd (cc (sym t ∙ real)), λ _ z. absurd (omega arith))

  send_real :
      (anti_mev : Bool) (tx : Tx) (sig : String)
      → net.simulate_only ≡ false
      → Sound anti_mev (
          if anti_mev
          then send_via_jito_retry net tx sig
          else record { sends = 1; result = net.node_send tx sig })
  send_real true tx sig real = jito-Sound tx sig real
  send_real false tx sig real = node-Sound tx sig real

  send_signed-Sound :
      (anti_mev : Bool) (r : Result (Tx × String)) → Sound anti_mev (send_signed net anti_mev r)
  send_signed-Sound anti_mev (err e) = unsent-Sound anti_mev e
  send_signed-Sound anti_mev (ok (tx, sig)) = elim (Bool-cases net.simulate_only) [
    | inl only ↦
        subst (Sound anti_mev) (sym (if_true _ _ only))
          (simulated-Sound anti_mev sig (simulated net (net.simulation tx)) only)
    | inr real ↦ subst (Sound anti_mev) (sym (if_false _ _ real)) (send_real anti_mev tx sig real)
  ]

  module _ {F : Type 0} (d : Decimals F) (fee_percent : d.D) (tm : Manager) where
    send_built-Sound :
        (tx : SwapTx) (r : Result (List Instruction))
        → Sound tx.is_anti_mev (send_built net d fee_percent tm tx r)
    send_built-Sound tx (err e) = unsent-Sound tx.is_anti_mev e
    send_built-Sound tx (ok is) =
        send_signed-Sound tx.is_anti_mev (sign net tm is tx.user_wallet_account)

    -- A swap is sent at most five times, and at most once without the protection against MEV; it is
    -- never sent by a manager that only simulates; and where another manager sends nothing, the
    -- result is an error.
    pub create_swap_tx-Sound :
        (tx : SwapTx) → Sound tx.is_anti_mev (create_swap_tx net d fee_percent tm tx)
    unfolding create_swap_tx
    create_swap_tx-Sound tx = send_built-Sound tx (instructions_of net d fee_percent tm tx)
