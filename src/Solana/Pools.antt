-- ===== src/Solana/Pools.antt =====
-- solana/txManager.go: `CreatePoolInstructions` with `findRaydiumPoolPDAs`, and
-- `BuildUnsignedPoolTransaction`. `none` is the panic of a decimal that is made of no number.
pub mod Order
pub mod Made
use Prim.Native.String.{◌++◌ as ◌<>◌}
use greet.Base.{
  ℕ, ◌==◌, ltb, ◌+◌, ◌%◌, ◌^◌, String, Bool, true, false, if◌then◌else◌, List, [], ◌∷◌, ◌++◌,
  Option, none, some, and_then, Error, described, after_text, Result, ok, err, ◌>>=◌, Floats,
  Decimals,
}
use greet.Base.Bytes.{le_bytes, be_bytes}
use greet.Base.Int.{ℤ, pos, negsuc}
use greet.Base.Text.{codes}
use greet.Solana.Types.{AccountMeta, Instruction, Manager}
use greet.Solana.Send.{Network}
use greet.Solana.Unsigned.{Wire}

-- `CreatePoolTx` of pkg/trade; the tier and the time by their bit patterns.
pub record CreatePoolTx : Type 0 where
  pub chain_id : ℕ
  pub token_mint0 : String
  pub token_mint1 : String
  pub initial_price : String
  pub fee_tier : ℕ
  pub open_time : ℕ
  pub user_wallet_address : String

-- Derived addresses and the bytes of a key; the square root of a float, which may be no number, and
-- `BigInt` of a decimal.
pub record PoolNode {F : Type 0} (d : Decimals F) : Type 0 where
  pub find_program_address : List (List ℕ) → String → Result String
  pub key_bytes : String → List ℕ
  pub sqrt_f : F → Option F
  pub big_int : d.D → ℤ

-- `bytes.Compare(a, b) > 0`
abbrev pub is_above : List ℕ → List ℕ → Bool
is_above [] bs = false
is_above (a ∷ xs) [] = true
is_above (a ∷ xs) (b ∷ bs) =
    let rest = is_above xs bs in if ltb b a then true else if ltb a b then false else rest

abbrev pub raydium_program : String
raydium_program = "A1izdbCxDvLjZ2WZFkPdSLNBrrYrhBqxmmzCkm82G4ys"

abbrev pub compute_budget : String
compute_budget = "ComputeBudget111111111111111111111111111111"

-- A unit price of 383391 and a limit of 200704 units.
abbrev pub compute_budget_instructions : List Instruction
compute_budget_instructions =
    Instruction.program compute_budget [] (3 ∷ 159 ∷ 217 ∷ 5 ∷ 0 ∷ 0 ∷ 0 ∷ 0 ∷ 0 ∷ [])
    ∷ Instruction.program compute_budget [] (2 ∷ 0 ∷ 16 ∷ 3 ∷ 0 ∷ 0 ∷ 0 ∷ 0 ∷ [])
    ∷ []

-- The configuration for a tier of fees.
abbrev pub amm_config_of : ℕ → String
amm_config_of tier =
    if tier == 1
    then "37x3waVE77oJ6iF7zVBkdRRkwfq8xfGrSFY3sziWLyuE"
    else if tier == 30
    then "FiyUUSnhBgLhBgVGWNBVozhzSbAbFCU1Q8iWMHH3xUhA"
    else if tier == 100
    then "C4E93u37E9RUdczGpfMngFEgUuPNrxiWRcLE7oRgSDao"
    else "3UfAopmTFEMwiHaWvyQgNbBnhX2279RYMriFCXGBMLFz"

pub record PoolKeys : Type 0 where
  pub pool_state : String
  pub token_vault0 : String
  pub token_vault1 : String
  pub observation_state : String
  pub tick_array_bitmap : String

abbrev pub read_only : String → AccountMeta
read_only key = record { key = key; writable = false; signer = false }

abbrev pub changed : String → AccountMeta
changed key = record { key = key; writable = true; signer = false }

abbrev pub pool_accounts : String → String → String → String → PoolKeys → List AccountMeta
pool_accounts creator amm_config token0 token1 keys =
    record { key = creator; writable = true; signer = true }
    ∷ read_only amm_config
    ∷ changed keys.pool_state
    ∷ read_only token0
    ∷ read_only token1
    ∷ changed keys.token_vault0
    ∷ changed keys.token_vault1
    ∷ changed keys.observation_state
    ∷ changed keys.tick_array_bitmap
    ∷ read_only "TokenkegQfeZyiNwAJbNbGKPFXCWuBvf9Ss623VQ5DA"
    ∷ read_only "TokenkegQfeZyiNwAJbNbGKPFXCWuBvf9Ss623VQ5DA"
    ∷ read_only "11111111111111111111111111111111"
    ∷ read_only "SysvarRent111111111111111111111111111111111"
    ∷ []

-- `big.Int.Bytes` is of the absolute value.
abbrev pub magnitude : ℤ → ℕ
magnitude (pos n) = n
magnitude (negsuc n) = n + 1

-- The low sixteen bytes of the price, the most significant first, and the time.
abbrev pub pool_bytes : ℤ → ℕ → List ℕ
pool_bytes price open_time =
    (233 ∷ 146 ∷ 209 ∷ 142 ∷ 207 ∷ 104 ∷ 64 ∷ 188 ∷ [])
    ++ (be_bytes 16 (magnitude price) ++ le_bytes 8 open_time)

module _ {F : Type 0} (d : Decimals F) (node : PoolNode d) (tm : Manager) where
  -- `findRaydiumPoolPDAs`
  unfoldable pub find_raydium_pool_pdas : String → String → String → String → Result PoolKeys
  find_raydium_pool_pdas program token0 token1 amm_config = do
    pool ←
        node.find_program_address
          (codes "pool"
            ∷ node.key_bytes amm_config
            ∷ node.key_bytes token0
            ∷ node.key_bytes token1
            ∷ [])
          program
    vault0 ←
        node.find_program_address
          (codes "pool_vault" ∷ node.key_bytes pool ∷ node.key_bytes token0 ∷ []) program
    vault1 ←
        node.find_program_address
          (codes "pool_vault" ∷ node.key_bytes pool ∷ node.key_bytes token1 ∷ []) program
    observation ← node.find_program_address (codes "observation" ∷ node.key_bytes pool ∷ []) program
    bitmap ←
        node.find_program_address
          (codes "pool_tick_array_bitmap_extension" ∷ node.key_bytes pool ∷ []) program
    ok (record {
      pool_state = pool;
      token_vault0 = vault0;
      token_vault1 = vault1;
      observation_state = observation;
      tick_array_bitmap = bitmap;
    })

  -- The tokens of a pool in the order of their keys.
  abbrev pub sorted_tokens : String → String → String × String
  sorted_tokens token0 token1 =
      if is_above (node.key_bytes token0) (node.key_bytes token1)
      then (token1, token0)
      else (token0, token1)

  -- `NewFromFloat` of the square root, times `NewFromInt(1).Shift(64)`, which is ten to the 64.
  abbrev pub sqrt_price_x64 : d.D → Option d.D
  sqrt_price_x64 price =
      and_then (node.sqrt_f (d.to_float price))
        λ root. some (d.mul_d (d.of_float root) (d.scaled (pos 1) (pos 64)))

  abbrev pub pool_instruction :
      CreatePoolTx → String → String × String → d.D → Result (List Instruction)
  pool_instruction tx creator tokens price = do
    keys ←
        described (after_text "failed to derive PDAs: ")
          (find_raydium_pool_pdas raydium_program tokens.0 tokens.1 (amm_config_of tx.fee_tier))
    ok (
        compute_budget_instructions
        ++ (Instruction.program raydium_program
              (pool_accounts creator (amm_config_of tx.fee_tier) tokens.0 tokens.1 keys)
              (pool_bytes (node.big_int price) tx.open_time)
            ∷ []))

  abbrev pub priced_pool :
      CreatePoolTx → String → String × String → Result d.D → Option (Result (List Instruction))
  unfolding find_raydium_pool_pdas
  priced_pool tx creator tokens (err e) = some (err (after_text "invalid initial price: " e))
  priced_pool tx creator tokens (ok price) =
      and_then (sqrt_price_x64 price) (λ x. some (pool_instruction tx creator tokens x))

  -- The keys of a request.
  abbrev pub pool_request_keys : CreatePoolTx → Result (String × String × String)
  pool_request_keys tx = do
    token0 ← described (after_text "invalid token_mint_0: ") (tm.public_key tx.token_mint0)
    token1 ← described (after_text "invalid token_mint_1: ") (tm.public_key tx.token_mint1)
    creator ←
        described (after_text "invalid user wallet address: ")
          (tm.public_key tx.user_wallet_address)
    ok (token0, token1, creator)

  abbrev pub after_pool_keys :
      CreatePoolTx → Result (String × String × String) → Option (Result (List Instruction))
  unfolding find_raydium_pool_pdas
  after_pool_keys tx (err e) = some (err e)
  after_pool_keys tx (ok k) =
      priced_pool tx k.2 (sorted_tokens k.0 k.1) (d.of_string tx.initial_price)

  -- `CreatePoolInstructions`
  unfoldable pub create_pool_instructions : CreatePoolTx → Option (Result (List Instruction))
  unfolding find_raydium_pool_pdas
  create_pool_instructions tx = after_pool_keys tx (pool_request_keys tx)

  module _ (net : Network) (wire : Wire net) where
    abbrev pub unsigned_pool : CreatePoolTx → List Instruction → Result String
    unsigned_pool tx is = do
      hash ← described (after_text "failed to get latest blockhash: ") net.latest_blockhash
      payer ← tm.public_key tx.user_wallet_address
      made ← net.new_transaction is hash payer
      bytes ← wire.marshal made
      ok (wire.base64 bytes)

    -- `BuildUnsignedPoolTransaction`
    unfoldable pub build_unsigned_pool_transaction : CreatePoolTx → Option (Result String)
    unfolding create_pool_instructions
    build_unsigned_pool_transaction tx =
        and_then (create_pool_instructions tx) (λ r. some (r >>= unsigned_pool tx))
