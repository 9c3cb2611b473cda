-- ===== src/Solana/Dex/NoSwap.antt =====
-- What `CreateMarketOrderDex` builds: the funds that it has checked, and a list of instructions in
-- which the place of the swap holds something else.
use greet.Base.{
  ◌⊎◌, true, false, ℕ, ◌*◌, ◌%◌, ◌^◌, ◌≤◌, ltb, ◌≡◌, ◌≢◌, sym, ap, ◌∙◌, inl, inr, String,
  Bool-cases, if◌then◌else◌, if_true, if_false, str_eq, List, [], ◌∷◌, ◌++◌, ok, err, >>=-eq-ok,
  ok-injective, Decimals, arith,
}
use greet.Order.Types.{raydium_v4, raydium_clmm, raydium_cpmm}
use greet.Solana.Types.{SwapTx, Instruction, Manager, uint64, ◌+64◌, sol_gas_not_enough, gas_mode}
use greet.Solana.Gas.{create_gas}
use greet.Solana.Dex.{
  pump_swap, units_of_pool, dex_instruction, scaled_amount, pay_in, close_in, affordable,
  create_market_order_dex,
}

dex_instruction_same :
    (pool : String) (last : Instruction) {i : Instruction}
    → dex_instruction pool last ≡ ok i
    → i ≡ last
dex_instruction_same pool last {i} h = elim (Bool-cases (str_eq pool raydium_cpmm)) [
  | inl cpmm ↦ ok-injective _ _ (sym h ∙ if_true _ _ cpmm)
  | inr not_cpmm ↦
      let h1 = sym (if_false _ _ not_cpmm) ∙ h in
      elim (Bool-cases (str_eq pool raydium_clmm)) [
        | inl clmm ↦ ok-injective _ _ (sym h1 ∙ if_true _ _ clmm)
        | inr not_clmm ↦
            let h2 = sym (if_false _ _ not_clmm) ∙ h1 in
            elim (Bool-cases (str_eq pool pump_swap)) [
              | inl swap ↦ ok-injective _ _ (sym h2 ∙ if_true _ _ swap)
              | inr other ↦ absurd (cc (sym h2 ∙ if_false _ _ other))
            ]
      ]
]

affordable-inv :
    (balance cost : ℕ) {c : ℕ}
    → (if ltb balance cost then err sol_gas_not_enough else ok cost) ≡ ok c
    → cost ≤ balance
affordable-inv balance cost h = elim (Bool-cases (ltb balance cost)) [
  | inl short ↦ absurd (cc (sym h ∙ if_true _ _ short))
  | inr enough ↦ ground arith
]

module _ {F : Type 0} (d : Decimals F) (fee_percent : d.D) (tm : Manager) where
  -- The payment and the cost with it: a buy moves the amount, which the balance covers, into the
  -- account of wrapped SOL, and costs the fee and the amount on top; anything else pays nothing.
  abbrev pub Pays : SwapTx → d.D → String → ℕ → ℕ → List Instruction × ℕ → Type 0
  Pays tx amount in_ata balance cost paid =
      ((move sync : Instruction) × (str_eq tx.in_mint tm.wrapped_sol ≡ true)
        × (uint64 (d.int_part amount) ≤ balance)
        × (tm.build
              (Instruction.transfer (uint64 (d.int_part amount)) tx.user_wallet_account in_ata)
            ≡ ok move)
        × (tm.build (Instruction.sync_native in_ata) ≡ ok sync)
        × (paid.0 ≡ move ∷ sync ∷ [])
        × (paid.1
            ≡ cost
              +64 (uint64 (d.int_part (d.mul_d amount fee_percent))
                  +64 uint64 (d.int_part amount))))
      ⊎ ((str_eq tx.in_mint tm.wrapped_sol ≡ false) × (paid.0 ≡ []) × (paid.1 ≡ cost))

  pay_in-Pays :
      (tx : SwapTx) (amount : d.D) (in_ata : String) (balance cost : ℕ)
      {paid : List Instruction × ℕ}
      → pay_in d fee_percent tm tx amount in_ata balance cost ≡ ok paid
      → Pays tx amount in_ata balance cost paid
  pay_in-Pays tx amount in_ata balance cost h =
      elim (Bool-cases (str_eq tx.in_mint tm.wrapped_sol)) [
        | inr sell ↦
            let e = ok-injective _ _ (sym (if_false _ _ sell) ∙ h) in
            inr (sell, sym (ap (λ p. p.0) e), sym (ap (λ p. p.1) e))
        | inl buy ↦
            let h1 = sym (if_true _ _ buy) ∙ h in
            elim (Bool-cases (ltb balance (uint64 (d.int_part amount)))) [
              | inl short ↦ absurd (cc (sym h1 ∙ if_true _ _ short))
              | inr enough ↦
                  let h2 = sym (if_false _ _ enough) ∙ h1 in
                  let (move, moved, h3) =
                    >>=-eq-ok
                      (tm.build (
                        Instruction.transfer (uint64 (d.int_part amount)) tx.user_wallet_account
                          in_ata))
                      _ h2 in
                  let (sync, synced, h4) =
                    >>=-eq-ok (tm.build (Instruction.sync_native in_ata)) _ h3 in
                  let e = ok-injective _ _ h4 in
                  inl (
                    move,
                    sync,
                    buy,
                    ground arith,
                    moved,
                    synced,
                    sym (ap (λ p. p.0) e),
                    sym (ap (λ p. p.1) e),
                  )
            ]
      ]

  -- What a list of instructions has been built of: the balance covers the cost, which is the rent
  -- of two accounts, the gas and, in a buy, the service fee and the amount; and after the payment
  -- come the creation of the account for the token that is bought, the same instruction again, and
  -- the end of the list.
  abbrev pub Built : SwapTx → List Instruction → Type 0
  Built tx is =
      (amount : d.D) × (units : ℕ) × (gas : List Instruction × ℕ) × (in_ata : String)
      × (balance : ℕ) × (paid : List Instruction × ℕ) × (create_in create_out : Instruction)
      × (closing : List Instruction) × (scaled_amount d fee_percent tm tx ≡ ok amount)
      × (units_of_pool tx.trade_pool_name ≡ ok units)
      × (create_gas tm units (gas_mode tx.gas_type) ≡ ok gas)
      × (tm.balance tx.user_wallet_account ≡ ok balance)
      × Pays tx amount in_ata balance ((tm.rent_fee * 2) % 2 ^ 64 +64 gas.1) paid
      × (paid.1 ≤ balance)
      × (tm.build (Instruction.create_ata tx.user_wallet_account tx.out_mint tx.out_token_program)
          ≡ ok create_out)
      × (dex_instruction tx.trade_pool_name create_out ≡ ok create_out)
      × (is ≡ gas.0 ++ ((create_in ∷ []) ++ (paid.0 ++ (create_out ∷ create_out ∷ closing))))

  -- Where the instructions of a swap in a pool of Raydium or PumpSwap are built, the balance covers
  -- the cost, and none of them swaps: at the place of the swap stands the creation of the account
  -- of the bought token for a second time.
  pub create_market_order_dex-Built :
      (tx : SwapTx) {is : List Instruction}
      → create_market_order_dex d fee_percent tm tx ≡ ok is
      → Built tx is
  unfolding create_market_order_dex
  create_market_order_dex-Built tx h =
      let (amount, e1, h1) = >>=-eq-ok (scaled_amount d fee_percent tm tx) _ h in
      let (units, e2, h2) = >>=-eq-ok (units_of_pool tx.trade_pool_name) _ h1 in
      let (gas, e3, h3) = >>=-eq-ok (create_gas tm units (gas_mode tx.gas_type)) _ h2 in
      let (create_in, e4, h4) =
        >>=-eq-ok
          (tm.build (Instruction.create_ata tx.user_wallet_account tx.in_mint tx.in_token_program))
          _ h3 in
      let (in_ata, e5, h5) =
        >>=-eq-ok (tm.ata_of tx.user_wallet_account tx.in_mint tx.in_token_program) _ h4 in
      let (out_ata, e6, h6) =
        >>=-eq-ok (tm.ata_of tx.user_wallet_account tx.out_mint tx.out_token_program) _ h5 in
      let (balance, e7, h7) = >>=-eq-ok (tm.balance tx.user_wallet_account) _ h6 in
      let (paid, e8, h8) =
        >>=-eq-ok
          (pay_in d fee_percent tm tx amount in_ata balance ((tm.rent_fee * 2) % 2 ^ 64 +64 gas.1))
          _ h7 in
      let (cost, e9, h9) = >>=-eq-ok (affordable d fee_percent tm balance paid.1) _ h8 in
      let (create_out, e10, h10) =
        >>=-eq-ok
          (tm.build
            (Instruction.create_ata tx.user_wallet_account tx.out_mint tx.out_token_program))
          _ h9 in
      let (swap, e11, h11) = >>=-eq-ok (dex_instruction tx.trade_pool_name create_out) _ h10 in
      let (closing, e12, h12) = >>=-eq-ok (close_in d fee_percent tm tx in_ata) _ h11 in
      (
        amount,
        units,
        gas,
        in_ata,
        balance,
        paid,
        create_in,
        create_out,
        closing,
        e1,
        e2,
        e3,
        e7,
        pay_in-Pays tx amount in_ata balance ((tm.rent_fee * 2) % 2 ^ 64 +64 gas.1) e8,
        affordable-inv balance paid.1 e9,
        e10,
        e11 ∙ ap ok (dex_instruction_same tx.trade_pool_name create_out e11),
        sym (ok-injective _ _ h12)
            ∙ ap (λ i. gas.0 ++ ((create_in ∷ []) ++ (paid.0 ++ (create_out ∷ i ∷ closing))))
                (dex_instruction_same tx.trade_pool_name create_out e11),
      )

  -- A swap in a pool of Raydium V4 is never built, though the manager sends such swaps here.
  pub raydium_v4_never_built :
      (tx : SwapTx) (is : List Instruction)
      → tx.trade_pool_name ≡ raydium_v4
      → create_market_order_dex d fee_percent tm tx ≢ ok is
  raydium_v4_never_built tx is v4 h =
      let (
        amount, units, gas, in_ata, balance, paid, create_in, create_out, closing, e1, e2, e3, e7,
        e8, funds, e10, last, shape,
      ) =
        create_market_order_dex-Built tx h in
      absurd (cc (sym (ap (λ pool. dex_instruction pool create_out) v4) ∙ last))
