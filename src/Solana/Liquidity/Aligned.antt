-- ===== src/Solana/Liquidity/Aligned.antt =====
-- The two sides of a position against those of the request, with the user's token accounts.
use greet.Base.{
  ◌≡◌, refl, sym, ap, ◌∙◌, ◌⊎◌, inl, inr, String, str_eq, eq_iff, true, false, if_true, if_false,
  if◌then◌else◌, ok, >>=-eq-ok, ok-injective, described, described-eq_ok, after_text, Floats,
  Decimals,
}
use greet.Solana.Types.{Manager}
use greet.Solana.Pools.{PoolNode}
use greet.Solana.Pools.Order.{is_above-asym}
use greet.Solana.Positions.{Logs}
use greet.Solana.Liquidity.{
  Accounts, PoolVaults, LiquidityKeys, PositionSides, is_below, user_tokens, lamports,
  position_sides, find_or_create_ata,
}

module _ (f : Floats) (logs : Logs f) (d : Decimals f.F) (node : PoolNode d) (tm : Manager)
    (acc : Accounts) where
  open d use {D}

  -- The request names a mint with an amount.
  abbrev pub Asks : LiquidityKeys D → String → D → Type 0
  Asks k mint amount =
      ((k.token_a ≡ mint) × (k.base_amount ≡ amount))
      ⊎ ((k.token_b ≡ mint) × (k.other_amount ≡ amount))

  below-not_above :
      (a b : String)
      → is_below f logs d node tm acc a b ≡ true
      → is_below f logs d node tm acc b a ≡ false
  below-not_above a b = is_above-asym (node.key_bytes b) (node.key_bytes a)

  -- Of a pool whose mints are in the order of their keys and are those of the request, in
  -- either order, each side has its mint's vault, its token account and the amount that the request
  -- names for its mint.
  abbrev pub Aligned : LiquidityKeys D → PoolVaults → PositionSides → String × String → Type 0
  Aligned k p s accounts =
      (low : D) × (high : D) × Asks k p.token_mint0 low
      × Asks k p.token_mint1 high
      × (s.vault_a ≡ p.token_vault0)
      × (s.vault_b ≡ p.token_vault1)
      × (s.amount0_max ≡ lamports f logs d node tm acc low)
      × (s.amount1_max ≡ lamports f logs d node tm acc high)
      × (find_or_create_ata f logs d node tm acc p.token_mint0 k.user_wallet ≡ ok accounts.0)
      × (find_or_create_ata f logs d node tm acc p.token_mint1 k.user_wallet ≡ ok accounts.1)

  abbrev pub SamePair : LiquidityKeys D → PoolVaults → Type 0
  SamePair k p =
      ((k.token_a ≡ p.token_mint0) × (k.token_b ≡ p.token_mint1))
      ⊎ ((k.token_a ≡ p.token_mint1) × (k.token_b ≡ p.token_mint0))

  user_tokens-inv :
      (k : LiquidityKeys D) {accounts : String × String}
      → user_tokens f logs d node tm acc k ≡ ok accounts
      → (find_or_create_ata f logs d node tm acc
            (if is_below f logs d node tm acc k.token_a k.token_b then k.token_a else k.token_b)
            k.user_wallet
          ≡ ok accounts.0)
        × (find_or_create_ata f logs d node tm acc
              (if is_below f logs d node tm acc k.token_a k.token_b then k.token_b else k.token_a)
              k.user_wallet
            ≡ ok accounts.1)
  user_tokens-inv k {accounts} h =
      let (a, first, h1) =
        >>=-eq-ok (described (after_text "failed to find/create token account A: ") _) _ h in
      let (b, second, h2) =
        >>=-eq-ok (described (after_text "failed to find/create token account B: ") _) _ h1 in
      let e = ok-injective _ _ h2 in
      (
        described-eq_ok _ _ first ∙ ap (λ x. ok x.0) e,
        described-eq_ok _ _ second ∙ ap (λ x. ok x.1) e,
      )

  pub position_sides-Aligned :
      (k : LiquidityKeys D) (p : PoolVaults) {accounts : String × String}
      → is_below f logs d node tm acc p.token_mint0 p.token_mint1 ≡ true
      → SamePair k p
      → user_tokens f logs d node tm acc k ≡ ok accounts
      → Aligned k p (position_sides f logs d node tm acc k p) accounts
  position_sides-Aligned k p {accounts} ordered (inl (a_is, b_is)) h =
      let below : is_below f logs d node tm acc k.token_a k.token_b ≡ true =
        rw a_is (rw b_is ordered) in
      let named : str_eq k.token_a p.token_mint0 ≡ true = (eq_iff k.token_a p.token_mint0).1 a_is in
      let (first, second) = user_tokens-inv k h in
      (
        k.base_amount,
        k.other_amount,
        inl (a_is, refl),
        inr (b_is, refl),
        rw ordered refl,
        rw ordered refl,
        rw ordered (rw below (rw named refl)),
        rw ordered (rw below (rw named refl)),
        ap (λ m. find_or_create_ata f logs d node tm acc m k.user_wallet)
              (sym (if_true _ _ below ∙ a_is))
            ∙ first,
        ap (λ m. find_or_create_ata f logs d node tm acc m k.user_wallet)
              (sym (if_true _ _ below ∙ b_is))
            ∙ second,
      )
  position_sides-Aligned k p {accounts} ordered (inr (a_is, b_is)) h =
      let above : is_below f logs d node tm acc k.token_a k.token_b ≡ false =
        rw a_is (rw b_is (below-not_above p.token_mint0 p.token_mint1 ordered)) in
      let named : str_eq k.token_b p.token_mint0 ≡ true = (eq_iff k.token_b p.token_mint0).1 b_is in
      let (first, second) = user_tokens-inv k h in
      (
        k.other_amount,
        k.base_amount,
        inr (b_is, refl),
        inl (a_is, refl),
        rw ordered refl,
        rw ordered refl,
        rw ordered (rw above (rw named refl)),
        rw ordered (rw above (rw named refl)),
        ap (λ m. find_or_create_ata f logs d node tm acc m k.user_wallet)
              (sym (if_false _ _ above ∙ b_is))
            ∙ first,
        ap (λ m. find_or_create_ata f logs d node tm acc m k.user_wallet)
              (sym (if_false _ _ above ∙ a_is))
            ∙ second,
      )
