-- ===== src/Solana/PumpFun/Funds.antt =====
-- The funds that `CreateMarketOrder4Pumpfun` asks for.
use mathlib.Core.Path.{subst}
use greet.Base.{
  str_eq, if◌then◌else◌, ℕ, ◌≤◌, ltb, ◌≡◌, sym, ◌∙◌, ◌⊎◌, inl, inr, Bool, true, false, Bool-cases,
  if_true, if_false, List, [], ◌∷◌, ◌++◌, ok, >>=-eq-ok, ok-injective, Decimals, arith,
}
use greet.Solana.Types.{SwapTx, Instruction, Manager, uint64, ◌+64◌, gas_mode}
use greet.Solana.Gas.{create_gas}
use greet.Solana.Dex.{scaled_amount, affordable}
use greet.Solana.PumpFun.{
  has_sol, is_sell, token_mint, right_mints, cost_of, swap_instruction, create_market_order_pumpfun,
}

module _ {F : Type 0} (d : Decimals F) (fee_percent : d.D) (tm : Manager) where
  affordable-inv :
      (balance cost : ℕ) {c : ℕ}
      → affordable d fee_percent tm balance cost ≡ ok c
      → (cost ≤ balance) × (c ≡ cost)
  affordable-inv balance cost h = elim (Bool-cases (ltb balance cost)) [
    | inl short ↦ absurd (cc (sym h ∙ if_true _ _ short))
    | inr enough ↦ (ground arith, ok-injective _ _ (sym h ∙ if_false _ _ enough))
  ]

  -- What the balance covers: in a sell the cost; in a buy the amount, and the cost with the fee.
  abbrev pub Covers : SwapTx → d.D → ℕ → ℕ → Type 0
  Covers tx amount balance cost =
      ((is_sell d fee_percent tm tx ≡ true) × (cost ≤ balance))
      ⊎ ((is_sell d fee_percent tm tx ≡ false)
          × (uint64 (d.int_part amount) ≤ balance)
          × (cost +64 uint64 (d.int_part (d.mul_d amount fee_percent)) ≤ balance))

  cost_of-Covers :
      (tx : SwapTx) (amount : d.D) (balance cost : ℕ) {total : ℕ}
      → cost_of d fee_percent tm tx amount balance cost ≡ ok total
      → total ≤ balance
      → Covers tx amount balance cost
  cost_of-Covers tx amount balance cost h covered =
      elim (Bool-cases (is_sell d fee_percent tm tx)) [
        | inl sell ↦
            let q = ok-injective _ _ (sym h ∙ if_true _ _ sell) in
            inl (sell, subst (λ n. n ≤ balance) q covered)
        | inr buy ↦
            let h1 = sym (if_false _ _ buy) ∙ h in
            elim (Bool-cases (ltb balance (uint64 (d.int_part amount)))) [
              | inl short ↦ absurd (cc (sym h1 ∙ if_true _ _ short))
              | inr enough ↦
                  let q = ok-injective _ _ (sym h1 ∙ if_false _ _ enough) in
                  inr (buy, ground arith, subst (λ n. n ≤ balance) q covered)
            ]
      ]

  -- What a list of instructions has been built of.
  abbrev pub BuiltPump : SwapTx → List Instruction → Type 0
  BuiltPump tx is =
      (amount : d.D) × (gas : List Instruction × ℕ) × (balance : ℕ) × (create swap : Instruction)
      × (has_sol d fee_percent tm tx ≡ true)
      × (scaled_amount d fee_percent tm tx ≡ ok amount)
      × (create_gas tm 100000 (gas_mode 1) ≡ ok gas)
      × (tm.balance tx.user_wallet_account ≡ ok balance)
      × (tm.build (
            Instruction.create_ata tx.user_wallet_account
              (if str_eq tx.out_mint tm.wrapped_sol then tx.in_mint else tx.out_mint)
              tm.token_program_id)
          ≡ ok create)
      × Covers tx amount balance (tm.rent_fee +64 gas.1)
      × (swap_instruction d fee_percent tm tx (uint64 (d.int_part amount)) ≡ ok swap)
      × (is ≡ gas.0 ++ (create ∷ swap ∷ []))

  right_mints-inv :
      (tx : SwapTx) {b : Bool}
      → right_mints d fee_percent tm tx ≡ ok b
      → has_sol d fee_percent tm tx ≡ true
  right_mints-inv tx h = elim (Bool-cases (has_sol d fee_percent tm tx)) [
    | inl sol ↦ sol
    | inr wrong ↦ absurd (cc (sym h ∙ if_false _ _ wrong))
  ]

  pub create_market_order_pumpfun-BuiltPump :
      (tx : SwapTx) {is : List Instruction}
      → create_market_order_pumpfun d fee_percent tm tx ≡ ok is
      → BuiltPump tx is
  unfolding create_market_order_pumpfun
  create_market_order_pumpfun-BuiltPump tx h =
      let (mints, e1, h1) = >>=-eq-ok (right_mints d fee_percent tm tx) _ h in
      let (amount, e2, h2) = >>=-eq-ok (scaled_amount d fee_percent tm tx) _ h1 in
      let (price, e3, h3) = >>=-eq-ok (d.of_string tx.price) _ h2 in
      let (gas, e4, h4) = >>=-eq-ok (create_gas tm 100000 (gas_mode 1)) _ h3 in
      let (create, e5, h5) =
        >>=-eq-ok
          (tm.build (
            Instruction.create_ata tx.user_wallet_account (token_mint d fee_percent tm tx)
              tm.token_program_id))
          _ h4 in
      let (balance, e6, h6) = >>=-eq-ok (tm.balance tx.user_wallet_account) _ h5 in
      let (cost, e7, h7) =
        >>=-eq-ok (cost_of d fee_percent tm tx amount balance (tm.rent_fee +64 gas.1)) _ h6 in
      let (covered, e8, h8) = >>=-eq-ok (affordable d fee_percent tm balance cost) _ h7 in
      let (swap, e9, h9) =
        >>=-eq-ok (swap_instruction d fee_percent tm tx (uint64 (d.int_part amount))) _ h8 in
      (
        amount,
        gas,
        balance,
        create,
        swap,
        right_mints-inv tx e1,
        e2,
        e4,
        e6,
        e5,
        cost_of-Covers tx amount balance (tm.rent_fee +64 gas.1) e7
            (affordable-inv balance cost e8).0,
        e9,
        sym (ok-injective _ _ h9),
      )
