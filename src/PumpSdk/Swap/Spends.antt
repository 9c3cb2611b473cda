-- ===== src/PumpSdk/Swap/Spends.antt =====
-- What a buy and a sell of PumpFun say on the wire.
use mathlib.Core.Path.{subst}
use mathlib.Core.Option.{some-injective}
use greet.Base.{
  ℕ, ◌<◌, ◌^◌, ◌==◌, ◌≡◌, refl, sym, ap, ◌∙◌, inl, inr, String, Bool, true, false, Bool-cases,
  if◌then◌else◌, if_true, if_false, List, [], ◌∷◌, ◌++◌, All, All-append, drop, get_elem?, Option,
  none, some, and_then-eq_some, Result, ok, err, Result-cases, ◌>>=◌, >>=-eq-ok, ok-injective,
  described, described-eq_ok, after_text, Floats, Decimals, arith,
}
use greet.Base.Bytes.{uint64_of, le_bytes, uint64_of-le_bytes}
use greet.Base.Int.{ℤ, pos, negsuc}
use greet.Solana.Types.{AccountMeta, Instruction, uint64}
use greet.Quotes.{
  big_int64, BondingCurve, big_uint64, given, calculate_buy_quote, calc_min_amount_out_by_price,
  amounts,
}
use greet.PumpSdk.Node.{PumpNode, pump_program, CurveKeys, get_curve_keys}
use greet.PumpSdk.Curve.{BondingCurveData, fetch_bonding_curve}
use greet.PumpSdk.Creator.{get_creator_and_vault_from_transactions}
use greet.PumpSdk.Layout.{
  meta, writes, swap_accounts, derived_or, extra_accounts, buy_bytes, buy_instruction,
}
use greet.PumpSdk.Swap.{
  paid_amount, bought_tokens, reserves_of, recipient_or_default, get_global_fee_recipient, quoted,
  pump_fee, tokens_to_buy, buy_of_amount, after_curve_keys, build_buy_instruction,
}

pub uint64_lt : (z : ℤ) → uint64 z < 2 ^ 64
uint64_lt (pos n) = omega arith
uint64_lt (negsuc n) = omega arith

big_uint64_lt : (z : ℤ) → big_uint64 z < 2 ^ 64
big_uint64_lt (pos n) = omega arith
big_uint64_lt (negsuc n) = omega arith

-- No account signs but the user's.
abbrev pub OnlySigner : String → List AccountMeta → Type 0
OnlySigner user accounts = All (λ a. a.signer ≡ true → a.key ≡ user) accounts

derived_or-signer :
    (user : String) (other : AccountMeta) (as_meta : String → AccountMeta) (r : Result (String × ℕ))
    → other.signer ≡ false
    → ((key : String) → (as_meta key).signer ≡ false)
    → (derived_or other as_meta r).signer ≡ true
    → (derived_or other as_meta r).key ≡ user
derived_or-signer user other as_meta (ok k) h g s = absurd (cc (g k.0))
derived_or-signer user other as_meta (err e) h g s = absurd (cc)

paid_amount-eq_ok : (amount : ℕ) {n : ℕ} → paid_amount amount ≡ ok n → (0 < amount) × (amount ≡ n)
paid_amount-eq_ok amount h = elim (Bool-cases (amount == 0)) [
  | inl z ↦ absurd (cc (if_true (err _) (ok amount) z))
  | inr p ↦ (ground arith, ok-injective _ _ (sym (if_false (err _) (ok amount) p) ∙ h))
]

bought_tokens-eq_ok :
    (tokens : ℕ) {n : ℕ} → bought_tokens tokens ≡ ok n → (0 < tokens) × (tokens ≡ n)
bought_tokens-eq_ok tokens h = elim (Bool-cases (tokens == 0)) [
  | inl z ↦ absurd (cc (if_true (err _) (ok tokens) z))
  | inr p ↦ (ground arith, ok-injective _ _ (sym (if_false (err _) (ok tokens) p) ∙ h))
]

after_test {ℓ} :
    {A : Type ℓ} (test : Bool) (a : A) {b : A} → (if test then none else some a) ≡ some b → a ≡ b
after_test true a h = cc
after_test false a h = some-injective _ _ h

quoted-eq_ok :
    (quote : BondingCurveData → Option ℕ) (r : Result BondingCurveData) {n : ℕ}
    → quoted quote r ≡ some (ok n)
    → (curve : BondingCurveData) × (quote curve ≡ some n)
quoted-eq_ok quote (err e) h = absurd (cc (some-injective _ _ h))
quoted-eq_ok quote (ok curve) h =
    let (a, e, same) = and_then-eq_some (quote curve) (λ a. some (ok a)) h in
    (curve, e ∙ ap some (ok-injective _ _ (some-injective _ _ same)))

silent : (key user : String) → false ≡ true → key ≡ user
silent key user h = absurd (cc)

swap_accounts-OnlySigner :
    (recipient mint : String) (keys : CurveKeys) (ata user vault : String)
    → OnlySigner user (swap_accounts recipient mint keys ata user vault)
swap_accounts-OnlySigner recipient mint keys ata user vault =
    let s = λ (key : String). silent key user in
    (s _, (s _, (s _, (s _, (s _, (s _, ((λ _. refl), (s _, (s _, (s _, (s _, (s _, tt))))))))))))

module _ (node : PumpNode) where
  extra_accounts-OnlySigner : (user : String) → OnlySigner user (extra_accounts node user)
  extra_accounts-OnlySigner user = (
    derived_or-signer user _ writes _ refl (λ k. refl),
    (
      derived_or-signer user _ writes _ refl (λ k. refl),
      (derived_or-signer user _ meta _ refl (λ k. refl), (silent _ user, tt)),
    ),
  )

  -- A buy of so many tokens for at most so much, as the program reads it: the amounts in the data,
  -- the curve of the mint and the vault of its creator at their places, and no signer but the user.
  pub record BuyFor (user mint : String) (tokens amount : ℕ) (i : Instruction) : Type 0 where
    pub accounts : List AccountMeta
    pub bytes : List ℕ
    pub keys : CurveKeys
    pub creator : String × String
    pub is_pump : i ≡ Instruction.program pump_program accounts bytes
    pub wants : uint64_of (drop 8 bytes) ≡ tokens
    pub pays : uint64_of (drop 16 bytes) ≡ amount
    pub curve_of_mint : get_curve_keys node mint ≡ ok keys
    pub creator_of_mint : get_creator_and_vault_from_transactions node mint ≡ ok creator
    pub curve : get_elem? accounts 3 ≡ some (writes keys.bonding_curve)
    pub vault : get_elem? accounts 9 ≡ some (writes creator.1)
    pub signer : OnlySigner user accounts

  buy_instruction-BuyFor :
      (tokens amount : ℕ) (recipient mint : String) (keys : CurveKeys) (ata user : String)
      (creator : String × String)
      → tokens < 2 ^ 64
      → amount < 2 ^ 64
      → get_curve_keys node mint ≡ ok keys
      → get_creator_and_vault_from_transactions node mint ≡ ok creator
      → BuyFor user mint tokens amount
          (buy_instruction node tokens amount recipient mint keys ata user creator.1)
  unfolding buy_instruction
  buy_instruction-BuyFor tokens amount recipient mint keys ata user creator few small of_curve
        of_creator =
      record {
        accounts = swap_accounts recipient mint keys ata user creator.1 ++ extra_accounts node user;
        bytes = buy_bytes tokens amount;
        keys = keys;
        creator = creator;
        is_pump = refl;
        wants = uint64_of-le_bytes tokens (le_bytes 8 amount ++ (1 ∷ [])) few;
        pays = uint64_of-le_bytes amount (1 ∷ []) small;
        curve_of_mint = of_curve;
        creator_of_mint = of_creator;
        curve = refl;
        vault = refl;
        signer =
            All-append (λ a. a.signer ≡ true → a.key ≡ user)
              (swap_accounts recipient mint keys ata user creator.1) (extra_accounts node user)
              (swap_accounts-OnlySigner recipient mint keys ata user creator.1)
              (extra_accounts-OnlySigner user);
      }

module _ (f : Floats) (d : Decimals f.F) (percent_of : ℤ → f.F → ℤ) (percentage_of : ℕ → f.F)
    (node : PumpNode) where
  open f use {F}

  calculate_buy_quote_lt :
      (amount : ℕ) (curve : BondingCurve) (percentage : F) {n : ℕ}
      → calculate_buy_quote percent_of amount curve percentage ≡ some n
      → n < 2 ^ 64
  unfolding calculate_buy_quote
  calculate_buy_quote_lt amount curve percentage h =
      let (out, _, same) =
        and_then-eq_some
          (given curve.virtual_sol_reserves curve.virtual_token_reserves (big_int64 amount))
          (λ out. some (big_uint64 (percent_of out percentage))) h in
      subst (λ n. n < 2 ^ 64) (some-injective _ _ same) (big_uint64_lt (percent_of out percentage))

  amounts_lt : (refused : Bool) (min_out out : d.D) → (amounts d refused min_out out).0 < 2 ^ 64
  amounts_lt true min_out out = omega arith
  amounts_lt false min_out out = uint64_lt (d.int_part min_out)

  calc_min_amount_out_by_price_lt :
      (slippage amount : ℕ) (buys : Bool) (price : F) (in_decimal out_decimal fee : ℕ) {out : ℕ × ℕ}
      → calc_min_amount_out_by_price d slippage amount buys price in_decimal out_decimal fee
        ≡ some out
      → out.0 < 2 ^ 64
  unfolding calc_min_amount_out_by_price
  calc_min_amount_out_by_price_lt slippage amount buys price in_decimal out_decimal fee h =
      subst (λ (out : ℕ × ℕ). out.0 < 2 ^ 64) (after_test _ _ h) (amounts_lt _ _ _)

  tokens_to_buy_lt :
      (amount slippage : ℕ) (price : F) (in_decimal out_decimal : ℕ) (keys : CurveKeys) {n : ℕ}
      → tokens_to_buy f d percent_of percentage_of node amount slippage price in_decimal out_decimal
          keys
        ≡ some (ok n)
      → n < 2 ^ 64
  tokens_to_buy_lt amount slippage price in_decimal out_decimal keys h =
      elim (Bool-cases (f.eq_f price f.zero_f)) [
        | inl z ↦
            let (curve, quote) =
              quoted-eq_ok
                (λ curve.
                  calculate_buy_quote percent_of amount (reserves_of curve)
                    (percentage_of slippage))
                (fetch_bonding_curve node keys.bonding_curve) (sym (if_true _ _ z) ∙ h) in
            calculate_buy_quote_lt amount (reserves_of curve) (percentage_of slippage) quote
        | inr z ↦
            let (out, priced, same) =
              and_then-eq_some
                (calc_min_amount_out_by_price d slippage amount true price in_decimal out_decimal
                  pump_fee)
                (λ out. some (ok out.0)) (sym (if_false _ _ z) ∙ h) in
            subst (λ n. n < 2 ^ 64) (ok-injective _ _ (some-injective _ _ same))
              (calc_min_amount_out_by_price_lt slippage amount true price in_decimal out_decimal
                pump_fee priced)
      ]

  buy_of_amount-BuyFor :
      (user mint : String) (amount : ℕ) (keys : CurveKeys) (tokens : ℕ) {i : Instruction}
      → tokens < 2 ^ 64
      → amount < 2 ^ 64
      → get_curve_keys node mint ≡ ok keys
      → buy_of_amount f d percent_of percentage_of node user mint amount keys tokens ≡ ok i
      → BuyFor node user mint tokens amount i × (0 < tokens) × (0 < amount)
  unfolding buy_of_amount
  buy_of_amount-BuyFor user mint amount keys tokens few small of_curve h =
      let (ata, _, h1) = >>=-eq-ok (node.find_ata user mint) _ h in
      let (paid, e2, h2) = >>=-eq-ok (paid_amount amount) _ h1 in
      let (creator, e3, h3) =
        >>=-eq-ok
          (described (after_text "failed to get creator and vault: ")
            (get_creator_and_vault_from_transactions node mint))
          _ h2 in
      let (bought, e4, h4) = >>=-eq-ok (bought_tokens tokens) _ h3 in
      let (pays, same_paid) = paid_amount-eq_ok amount e2 in
      let (wants, same_bought) = bought_tokens-eq_ok tokens e4 in
      let recipient = recipient_or_default node (get_global_fee_recipient node) in
      (
        subst (BuyFor node user mint tokens amount) (cc (ok-injective _ _ h4)) (
            buy_instruction-BuyFor node tokens amount recipient mint keys ata user creator few small
              of_curve (described-eq_ok _ _ e3)),
        wants,
        pays,
      )

  -- A buy that `BuildBuyInstruction` builds for an amount of 64 bits pays exactly that amount,
  -- which is not zero, for some tokens, not zero, of the curve of the mint.
  pub build_buy_instruction-BuyFor :
      (user mint : String) (amount slippage : ℕ) (price : F) (in_decimal out_decimal : ℕ)
      {i : Instruction}
      → amount < 2 ^ 64
      → build_buy_instruction f d percent_of percentage_of node user mint amount slippage price
          in_decimal out_decimal
        ≡ some (ok i)
      → (tokens : ℕ) × BuyFor node user mint tokens amount i × (0 < tokens) × (0 < amount)
  unfolding build_buy_instruction
  build_buy_instruction-BuyFor user mint amount slippage price in_decimal out_decimal small h =
      elim (Result-cases (get_curve_keys node mint)) [
        | inr (e, failed) ↦ absurd (cc)
        | inl (keys, found) ↦
            let built =
              after_curve_keys f d percent_of percentage_of node user mint amount slippage price
                in_decimal out_decimal in
            let (r, quote, rest) =
              and_then-eq_some
                (tokens_to_buy f d percent_of percentage_of node amount slippage price in_decimal
                  out_decimal keys)
                (λ r.
                  some
                    (r >>= buy_of_amount f d percent_of percentage_of node user mint amount keys))
                (sym (ap built found) ∙ h) in
            let (tokens, bought, last) =
              >>=-eq-ok r (buy_of_amount f d percent_of percentage_of node user mint amount keys)
                (some-injective _ _ rest) in
            let few =
              tokens_to_buy_lt amount slippage price in_decimal out_decimal keys
                (quote ∙ ap some bought) in
            let (buy, wants, pays) =
              buy_of_amount-BuyFor user mint amount keys tokens few small found last in
            (tokens, buy, wants, pays)
      ]
