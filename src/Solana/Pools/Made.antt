-- ===== src/Solana/Pools/Made.antt =====
-- What the transaction that creates a pool does.
use greet.Base.{
  ◌+◌, true, arith, ℕ, ◌%◌, ◌^◌, ◌<◌, ◌≡◌, refl, sym, ap, ◌∙◌, ◌⊎◌, inl, inr, String, false,
  Bool-cases, if_true, if_false, List, [], ◌∷◌, ◌++◌, some, and_then-eq_some, Result, Result-cases,
  ok, err, >>=-eq-ok, ok-injective, described, described-eq_ok, after_text, Decimals,
}
use mathlib.Core.Option.{some-injective}
use mathlib.Core.Path.{subst}
use greet.Base.Text.{codes}
use greet.Base.Int.{ℤ, pos, negsuc, pos_part, neg_part}
use greet.Base.Bytes.{
  le_bytes, be_bytes, big_endian, big_endian-be_bytes, uint64_of, uint64_of-le_bytes,
}
use greet.Solana.Types.{AccountMeta, Instruction, Manager}
use greet.Solana.Pools.{
  CreatePoolTx, PoolNode, PoolKeys, is_above, sorted_tokens, pool_request_keys, after_pool_keys,
  priced_pool, pool_bytes, magnitude, compute_budget_instructions, raydium_program, amm_config_of,
  sqrt_price_x64, find_raydium_pool_pdas, create_pool_instructions,
}
use greet.Solana.Pools.Order.{is_above-asym}

abbrev create_pool : List ℕ
create_pool = 233 ∷ 146 ∷ 209 ∷ 142 ∷ 207 ∷ 104 ∷ 64 ∷ 188 ∷ []

-- Data of the instruction that say a price and a time.
abbrev pub Says : List ℕ → ℕ → ℕ → Type 0
Says bytes price time =
    (a : List ℕ) × (b : List ℕ) × (bytes ≡ create_pool ++ (a ++ b))
    × (big_endian 16 (a ++ b) ≡ price)
    × (uint64_of b ≡ time)

module _ {F : Type 0} (d : Decimals F) (node : PoolNode d) (tm : Manager) where
  open node use {key_bytes}

  -- The two tokens of a request, the one with the lower key first.
  abbrev pub Sides : CreatePoolTx → String → String → Type 0
  Sides tx low high =
      (((tm.public_key tx.token_mint0 ≡ ok low) × (tm.public_key tx.token_mint1 ≡ ok high))
        ⊎ ((tm.public_key tx.token_mint0 ≡ ok high) × (tm.public_key tx.token_mint1 ≡ ok low)))
      × (is_above (key_bytes low) (key_bytes high) ≡ false)

  sorted_tokens-Sides :
      (tx : CreatePoolTx) (a b : String)
      → tm.public_key tx.token_mint0 ≡ ok a
      → tm.public_key tx.token_mint1 ≡ ok b
      → Sides tx (sorted_tokens d node tm a b).0 (sorted_tokens d node tm a b).1
  sorted_tokens-Sides tx a b first second =
      elim (Bool-cases (is_above (key_bytes a) (key_bytes b))) [
        | inl up ↦
            rw (if_true {A = String × String} (b, a) (a, b) up)
              (inr (first, second), is_above-asym (key_bytes a) (key_bytes b) up)
        | inr low ↦ rw (if_false {A = String × String} (b, a) (a, b) low) (inl (first, second), low)
      ]

  -- The addresses of a pool of two mints.
  abbrev pub Derived : String → String → String → PoolKeys → Type 0
  Derived config low high keys =
      (node.find_program_address
          (codes "pool" ∷ key_bytes config ∷ key_bytes low ∷ key_bytes high ∷ []) raydium_program
        ≡ ok keys.pool_state)
      × (node.find_program_address
            (codes "pool_vault" ∷ key_bytes keys.pool_state ∷ key_bytes low ∷ []) raydium_program
          ≡ ok keys.token_vault0)
      × (node.find_program_address
            (codes "pool_vault" ∷ key_bytes keys.pool_state ∷ key_bytes high ∷ []) raydium_program
          ≡ ok keys.token_vault1)
      × (node.find_program_address (codes "observation" ∷ key_bytes keys.pool_state ∷ [])
            raydium_program
          ≡ ok keys.observation_state)
      × (node.find_program_address
            (codes "pool_tick_array_bitmap_extension" ∷ key_bytes keys.pool_state ∷ [])
            raydium_program
          ≡ ok keys.tick_array_bitmap)

  find_raydium_pool_pdas-Derived :
      (config low high : String) {keys : PoolKeys}
      → find_raydium_pool_pdas d node tm raydium_program low high config ≡ ok keys
      → Derived config low high keys
  unfolding find_raydium_pool_pdas
  find_raydium_pool_pdas-Derived config low high h =
      let (pool, e1, h1) =
        >>=-eq-ok
          (node.find_program_address
            (codes "pool" ∷ key_bytes config ∷ key_bytes low ∷ key_bytes high ∷ []) raydium_program)
          _ h in
      let (vault0, e2, h2) =
        >>=-eq-ok
          (node.find_program_address (codes "pool_vault" ∷ key_bytes pool ∷ key_bytes low ∷ [])
            raydium_program)
          _ h1 in
      let (vault1, e3, h3) =
        >>=-eq-ok
          (node.find_program_address (codes "pool_vault" ∷ key_bytes pool ∷ key_bytes high ∷ [])
            raydium_program)
          _ h2 in
      let (observation, e4, h4) =
        >>=-eq-ok
          (node.find_program_address (codes "observation" ∷ key_bytes pool ∷ []) raydium_program) _
          h3 in
      let (bitmap, e5, h5) =
        >>=-eq-ok
          (node.find_program_address
            (codes "pool_tick_array_bitmap_extension" ∷ key_bytes pool ∷ []) raydium_program)
          _ h4 in
      subst (Derived config low high) (ok-injective _ _ h5) (e1, e2, e3, e4, e5)

  -- The decimal of the square root, moved by 64 places.
  abbrev pub Scaled : d.D → d.D → Type 0
  Scaled price root =
      (r : F) × (node.sqrt_f (d.to_float price) ≡ some r)
      × (root ≡ d.mul_d (d.of_float r) (d.scaled (pos 1) (pos 64)))

  sqrt_price_x64-Scaled :
      (price : d.D) {root : d.D} → sqrt_price_x64 d node tm price ≡ some root → Scaled price root
  sqrt_price_x64-Scaled price h =
      let (r, e, h1) = and_then-eq_some (node.sqrt_f (d.to_float price)) _ h in
      (r, e, sym (some-injective _ _ h1))

  -- An account that signs and changes, one that changes, and one that is read.
  abbrev pub signs : String → AccountMeta
  signs key = record { key = key; writable = true; signer = true }

  abbrev pub lists_changed : String → AccountMeta
  lists_changed key = record { key = key; writable = true; signer = false }

  abbrev pub reads : String → AccountMeta
  reads key = record { key = key; writable = false; signer = false }

  -- The last instruction of a list creates a pool.
  abbrev pub PoolMade : CreatePoolTx → List Instruction → Type 0
  PoolMade tx is =
      (low : String) × (high : String) × (creator : String) × (keys : PoolKeys) × (price : d.D)
      × (root : d.D) × (bytes : List ℕ) × (is
          ≡ compute_budget_instructions
            ++ (Instruction.program raydium_program
                  (signs creator
                    ∷ reads (amm_config_of tx.fee_tier)
                    ∷ lists_changed keys.pool_state
                    ∷ reads low
                    ∷ reads high
                    ∷ lists_changed keys.token_vault0
                    ∷ lists_changed keys.token_vault1
                    ∷ lists_changed keys.observation_state
                    ∷ lists_changed keys.tick_array_bitmap
                    ∷ reads "TokenkegQfeZyiNwAJbNbGKPFXCWuBvf9Ss623VQ5DA"
                    ∷ reads "TokenkegQfeZyiNwAJbNbGKPFXCWuBvf9Ss623VQ5DA"
                    ∷ reads "11111111111111111111111111111111"
                    ∷ reads "SysvarRent111111111111111111111111111111111"
                    ∷ [])
                  bytes
                ∷ []))
      × Sides tx low high
      × (tm.public_key tx.user_wallet_address ≡ ok creator)
      × Derived (amm_config_of tx.fee_tier) low high keys
      × (d.of_string tx.initial_price ≡ ok price)
      × Scaled price root
      × Says bytes ((pos_part (node.big_int root) + neg_part (node.big_int root)) % 2 ^ 128)
          tx.open_time

  pool_request_keys-inv :
      (tx : CreatePoolTx) {k : String × String × String}
      → pool_request_keys d node tm tx ≡ ok k
      → (tm.public_key tx.token_mint0 ≡ ok k.0)
        × (tm.public_key tx.token_mint1 ≡ ok k.1)
        × (tm.public_key tx.user_wallet_address ≡ ok k.2)
  pool_request_keys-inv tx {k} h =
      let (a, first, h1) =
        >>=-eq-ok (described (after_text "invalid token_mint_0: ") (tm.public_key tx.token_mint0)) _
          h in
      let (b, second, h2) =
        >>=-eq-ok (described (after_text "invalid token_mint_1: ") (tm.public_key tx.token_mint1)) _
          h1 in
      let (c, third, h3) =
        >>=-eq-ok
          (described (after_text "invalid user wallet address: ")
            (tm.public_key tx.user_wallet_address))
          _ h2 in
      let e = ok-injective _ _ h3 in
      (
        described-eq_ok _ _ first ∙ ap (λ x. ok x.0) e,
        described-eq_ok _ _ second ∙ ap (λ x. ok x.1) e,
        described-eq_ok _ _ third ∙ ap (λ x. ok x.2) e,
      )

  magnitude-parts : (x : ℤ) → magnitude x ≡ pos_part x + neg_part x
  magnitude-parts (pos n) = omega arith
  magnitude-parts (negsuc n) = omega arith

  pool_bytes-Says :
      (x : ℤ) (time : ℕ)
      → time < 2 ^ 64
      → Says (pool_bytes x time) ((pos_part x + neg_part x) % 2 ^ 128) time
  pool_bytes-Says x time small = (
    be_bytes 16 (magnitude x),
    le_bytes 8 time,
    refl,
    big_endian-be_bytes 16 (magnitude x) (le_bytes 8 time)
        ∙ ap (λ n. n % 2 ^ 128) (magnitude-parts x),
    uint64_of-le_bytes time [] small,
  )

  priced_pool-PoolMade :
      (tx : CreatePoolTx) (creator low high : String) {is : List Instruction}
      → tx.open_time < 2 ^ 64
      → Sides tx low high
      → tm.public_key tx.user_wallet_address ≡ ok creator
      → (r : Result d.D) → d.of_string tx.initial_price ≡ r
      → priced_pool d node tm tx creator (low, high) r ≡ some (ok is)
      → PoolMade tx is
  unfolding priced_pool
  priced_pool-PoolMade tx creator low high small sides wallet (err e) is_r h = absurd (cc h)
  priced_pool-PoolMade tx creator low high {is} small sides wallet (ok price) is_r h =
      let (root, rooted, h1) = and_then-eq_some (sqrt_price_x64 d node tm price) _ h in
      let (keys, derived, h2) =
        >>=-eq-ok
          (described (after_text "failed to derive PDAs: ")
            (find_raydium_pool_pdas d node tm raydium_program low high (amm_config_of tx.fee_tier)))
          _ (some-injective _ _ h1) in
      (
        low,
        high,
        creator,
        keys,
        price,
        root,
        pool_bytes (node.big_int root) tx.open_time,
        sym (ok-injective _ _ h2),
        sides,
        wallet,
        find_raydium_pool_pdas-Derived (amm_config_of tx.fee_tier) low high
            (described-eq_ok _ _ derived),
        is_r,
        sqrt_price_x64-Scaled price rooted,
        pool_bytes-Says (node.big_int root) tx.open_time small,
      )

  -- Where the opening time fits in 64 bits, the instructions for a pool end with one for Raydium's
  -- program whose two mints are those of the request, the one with the lower key first, whose
  -- configuration is that of the fee tier and whose accounts of the pool are derived of the two;
  -- its bytes say the low 128 bits of the root of the parsed price, moved by 64 decimal places,
  -- and the opening time.
  pub create_pool_instructions-PoolMade :
      (tx : CreatePoolTx) {is : List Instruction}
      → tx.open_time < 2 ^ 64
      → create_pool_instructions d node tm tx ≡ some (ok is)
      → PoolMade tx is
  unfolding create_pool_instructions
  create_pool_instructions-PoolMade tx {is} small h =
      elim (Result-cases (pool_request_keys d node tm tx)) [
        | inl (k, known) ↦
            let (first, second, wallet) = pool_request_keys-inv tx known in
            priced_pool-PoolMade tx k.2 _ _ small (sorted_tokens-Sides tx k.0 k.1 first second)
              wallet (d.of_string tx.initial_price) refl
              (ap (after_pool_keys d node tm tx) (sym known) ∙ h)
        | inr (e, unknown) ↦ absurd (cc (sym h ∙ ap (after_pool_keys d node tm tx) unknown))
      ]
