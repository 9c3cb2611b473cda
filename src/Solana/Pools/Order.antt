-- ===== src/Solana/Pools/Order.antt =====
-- The order in which a request names the two tokens of a pool.
use greet.Base.{
  ℕ, ltb, ◌≡◌, refl, sym, ap, ◌∙◌, inl, inr, String, Bool, true, false, Bool-cases, if_true,
  if_false, if◌then◌else◌, List, [], ◌∷◌, Result-cases, ok, Decimals, arith,
}
use greet.Solana.Types.{Manager}
use greet.Solana.Pools.{
  CreatePoolTx, PoolNode, is_above, sorted_tokens, priced_pool, create_pool_instructions,
}

-- The first byte that differs decides.
abbrev decided : Bool → Bool → Bool → Bool
decided up down rest = if up then true else if down then false else rest

decided-neither :
    (up down r s : Bool)
    → decided up down r ≡ false
    → decided down up s ≡ false
    → (up ≡ false) × (down ≡ false) × (r ≡ false) × (s ≡ false)
decided-neither true down r s h k = cc
decided-neither false true r s h k = cc
decided-neither false false r s h k = (refl, refl, h, k)

ltb-neither : (a b : ℕ) → ltb b a ≡ false → ltb a b ≡ false → a ≡ b
ltb-neither a b h k = ground arith

is_above-neither : (xs ys : List ℕ) → is_above xs ys ≡ false → is_above ys xs ≡ false → xs ≡ ys
is_above-neither [] [] h k = refl
is_above-neither [] (b ∷ ys) h k = cc
is_above-neither (a ∷ xs) [] h k = cc
is_above-neither (a ∷ xs) (b ∷ ys) h k =
    let (up, down, r, s) =
      decided-neither (ltb b a) (ltb a b) (is_above xs ys) (is_above ys xs) h k in
    rw (ltb-neither a b up down) (ap (λ zs. b ∷ zs) (is_above-neither xs ys r s))

ltb-asym : (a b : ℕ) → ltb b a ≡ true → ltb a b ≡ false
ltb-asym a b h = ground arith

decided-asym :
    (up down r s : Bool)
    → (up ≡ true → down ≡ false)
    → (r ≡ true → s ≡ false)
    → decided up down r ≡ true
    → decided down up s ≡ false
decided-asym true down r s one rest h = rw (one refl) refl
decided-asym false true r s one rest h = cc
decided-asym false false r s one rest h = rest h

pub is_above-asym : (xs ys : List ℕ) → is_above xs ys ≡ true → is_above ys xs ≡ false
is_above-asym [] ys h = cc
is_above-asym (a ∷ xs) [] h = refl
is_above-asym (a ∷ xs) (b ∷ ys) h =
    decided-asym (ltb b a) (ltb a b) (is_above xs ys) (is_above ys xs) (ltb-asym a b)
      (is_above-asym xs ys) h

module _ {F : Type 0} (d : Decimals F) (node : PoolNode d) (tm : Manager) where
  open node use {key_bytes}

  sorted_tokens_comm :
      (a b : String)
      → (key_bytes a ≡ key_bytes b → a ≡ b)
      → sorted_tokens d node tm a b ≡ sorted_tokens d node tm b a
  sorted_tokens_comm a b key_is = elim (Bool-cases (is_above (key_bytes a) (key_bytes b))) [
    | inl up ↦ if_true _ _ up ∙ sym (if_false _ _ (is_above-asym (key_bytes a) (key_bytes b) up))
    | inr low ↦ elim (Bool-cases (is_above (key_bytes b) (key_bytes a))) [
      | inl up ↦ if_false _ _ low ∙ sym (if_true _ _ up)
      | inr same ↦
          let one = key_is (is_above-neither (key_bytes a) (key_bytes b) low same) in
          ap (λ c. sorted_tokens d node tm c b) one
          ∙ ap (λ c. sorted_tokens d node tm b c) (sym one)
    ]
  ]

  -- The request that names the tokens in the other order.
  abbrev pub exchanged : CreatePoolTx → CreatePoolTx
  exchanged tx = record tx { token_mint0 = tx.token_mint1; token_mint1 = tx.token_mint0 }

  -- For two tokens with keys that have different bytes unless they are equal, a request and the one
  -- that names the tokens in the other order, with the same initial price, give the same
  -- instructions or the same failure.
  pub create_pool_instructions-exchanged :
      (tx : CreatePoolTx) {a b : String}
      → tm.public_key tx.token_mint0 ≡ ok a
      → tm.public_key tx.token_mint1 ≡ ok b
      → (key_bytes a ≡ key_bytes b → a ≡ b)
      → create_pool_instructions d node tm (exchanged tx) ≡ create_pool_instructions d node tm tx
  unfolding create_pool_instructions
  create_pool_instructions-exchanged tx {a} {b} first second key_is =
      elim (Result-cases (tm.public_key tx.user_wallet_address)) [
        | inl (creator, known) ↦ rw first (
            rw second (
              rw known (
                ap
                  (λ tokens. priced_pool d node tm tx creator tokens (d.of_string tx.initial_price))
                  (sym (sorted_tokens_comm a b key_is)))))
        | inr (e, unknown) ↦ rw first (rw second (rw unknown refl))
      ]
