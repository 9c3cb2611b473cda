-- ===== src/Solana/Liquidity.antt =====
-- solana/txManager.go: `CreateAddLiquidityInstructions` with `getPoolInfo`,
-- `GetPoolVaultsByPoolStateAddr`, `findOrCreateATAInstruction` and `DeriveProtocolPositionPDA`.
-- `none` is a panic.
pub mod Aligned
pub mod Sides
use Prim.Native.String.{◌++◌ as ◌<>◌}
use greet.Base.{
  ℕ, ◌==◌, ltb, ◌-◌, String, str_eq, Bool, true, false, ◌&&◌, if◌then◌else◌, List, [], ◌∷◌, ◌++◌,
  take, drop, length, Option, none, some, and_then, Error, Result, ok, err, go_on, ◌>>=◌, described,
  after_text, Floats, Decimals,
}
use greet.Base.Bytes.{little_endian, be_bytes}
use greet.Base.Int.{ℤ, pos}
use greet.Base.Text.{codes, itoa}
use greet.Solana.Types.{Instruction, Manager, uint64, ◌+64◌}
use greet.Solana.Pools.{PoolNode, is_above}
use greet.Solana.Positions.{
  Logs, TickArrays, OpenPosition, uint32, int32_of, token_program, ata_program, find_tick_arrays,
  build_open_position_instruction,
}
use greet.Solana.Ticks.{tick_with_spacing, get_tick_array_start_index_by_tick}

-- `AddLiquidityTx` of pkg/trade; the base token is not read.
pub record AddLiquidityTx : Type 0 where
  pub chain_id : ℕ
  pub pool_id : String
  pub tick_lower : ℤ
  pub tick_upper : ℤ
  pub base_token : ℕ
  pub base_amount : String
  pub other_amount_max : String
  pub user_wallet_address : String
  pub token_a_address : String
  pub token_b_address : String

-- The answers of the node in the order of the calls: the owner of the pool's account, its data, and
-- whether an account is there; `PublicKeyFromBytes`; and the key that `NewWallet` makes.
pub record Accounts : Type 0 where
  pub owner : String → Result String
  pub account_data : String → Result (List ℕ)
  pub has_account : String → Bool
  pub key_from_bytes : List ℕ → String
  pub new_wallet : String

pub record PoolVaults : Type 0 where
  pub token_mint0 : String
  pub token_mint1 : String
  pub token_vault0 : String
  pub token_vault1 : String
  pub observation : String
  pub tick_spacing : ℕ

-- The keys and amounts of a request.
pub record LiquidityKeys (D : Type 0) : Type 0 where
  pub user_wallet : String
  pub pool_state : String
  pub token_a : String
  pub token_b : String
  pub base_amount : D
  pub other_amount : D

-- The two sides of a position, the lower mint of the pool first.
pub record PositionSides : Type 0 where
  pub mint_a : String
  pub mint_b : String
  pub vault_a : String
  pub vault_b : String
  pub amount0_max : ℕ
  pub amount1_max : ℕ

abbrev pub insufficient : ℕ → ℕ → Error
insufficient needed has = Error.other (
    "insufficient SOL balance for WSOL wrapping: need " <> (itoa needed <> (", have " <> itoa has)))

module _ (acc : Accounts) where
  abbrev pub pool_key_at : ℕ → List ℕ → String
  pool_key_at n bytes = acc.key_from_bytes (take 32 (drop n bytes))

  -- The data of a pool; too few bytes are a panic.
  abbrev pub pool_vaults : List ℕ → Option PoolVaults
  pool_vaults bytes =
      if ltb (length bytes) 237
      then none
      else some (record {
        token_mint0 = pool_key_at 73 bytes;
        token_mint1 = pool_key_at 105 bytes;
        token_vault0 = pool_key_at 137 bytes;
        token_vault1 = pool_key_at 169 bytes;
        observation = pool_key_at 201 bytes;
        tick_spacing = little_endian 2 (drop 235 bytes);
      })

module _ (f : Floats) (logs : Logs f) (d : Decimals f.F) (node : PoolNode d) (tm : Manager)
    (acc : Accounts) where
  open d use {D}

  -- `bytes.Compare(a, b) < 0`
  abbrev pub is_below : String → String → Bool
  is_below a b = is_above (node.key_bytes b) (node.key_bytes a)

  -- `findOrCreateATAInstruction`
  abbrev pub find_or_create_ata : String → String → Result String
  find_or_create_ata mint owner =
      node.find_program_address
        (node.key_bytes owner ∷ node.key_bytes token_program ∷ node.key_bytes mint ∷ []) ata_program

  abbrev pub liquidity_keys : AddLiquidityTx → Result (LiquidityKeys D)
  liquidity_keys tx = do
    wallet ←
        described (after_text "invalid user wallet address: ")
          (tm.public_key tx.user_wallet_address)
    pool ← described (after_text "invalid pool ID: ") (tm.public_key tx.pool_id)
    a ← described (after_text "invalid token A address: ") (tm.public_key tx.token_a_address)
    b ← described (after_text "invalid token B address: ") (tm.public_key tx.token_b_address)
    base ← described (after_text "invalid base amount: ") (d.of_string tx.base_amount)
    other ← described (after_text "invalid other amount max: ") (d.of_string tx.other_amount_max)
    ok (record {
      user_wallet = wallet;
      pool_state = pool;
      token_a = a;
      token_b = b;
      base_amount = base;
      other_amount = other;
    })

  -- The token accounts of the user, that of the request's lower mint first.
  abbrev pub user_tokens : LiquidityKeys D → Result (String × String)
  user_tokens k =
      let low = if is_below k.token_a k.token_b then k.token_a else k.token_b in
      let high = if is_below k.token_a k.token_b then k.token_b else k.token_a in
      described (after_text "failed to find/create token account A: ")
        (find_or_create_ata low k.user_wallet)
      >>= λ a.
          described (after_text "failed to find/create token account B: ")
            (find_or_create_ata high k.user_wallet)
          >>= λ b. ok (a, b)

  -- An amount in units of a billionth, whatever the token's decimals.
  abbrev pub lamports : D → ℕ
  lamports amount = uint64 (d.int_part (d.mul_d amount (d.scaled (pos 1) (pos 9))))

  abbrev pub position_sides : LiquidityKeys D → PoolVaults → PositionSides
  position_sides k p =
      let first = if is_below k.token_a k.token_b then k.token_a else k.token_b in
      let amount0 =
        lamports (if is_below k.token_a k.token_b then k.base_amount else k.other_amount) in
      let amount1 =
        lamports (if is_below k.token_a k.token_b then k.other_amount else k.base_amount) in
      if is_below p.token_mint0 p.token_mint1
      then record {
        mint_a = p.token_mint0;
        mint_b = p.token_mint1;
        vault_a = p.token_vault0;
        vault_b = p.token_vault1;
        amount0_max = if str_eq first p.token_mint0 then amount0 else amount1;
        amount1_max = if str_eq first p.token_mint0 then amount1 else amount0;
      }
      else record {
        mint_a = p.token_mint1;
        mint_b = p.token_mint0;
        vault_a = p.token_vault1;
        vault_b = p.token_vault0;
        amount0_max = if str_eq first p.token_mint1 then amount1 else amount0;
        amount1_max = if str_eq first p.token_mint1 then amount0 else amount1;
      }

  -- SOL that is wrapped into a token account of the user, which is created where it is missing.
  abbrev pub created_ata : String → String → Result (List Instruction)
  created_ata wallet account =
      if acc.has_account account
      then ok []
      else described (after_text "failed to create CreateAssociatedTokenAccount instruction: ")
          (tm.build (Instruction.create_ata wallet tm.wrapped_sol token_program))
        >>= λ i. ok (i ∷ [])

  abbrev pub wsol_wrapped : Bool → ℕ → ℕ → ℕ → String → String → Result (List Instruction)
  wsol_wrapped is_sol amount needed balance wallet account =
      if is_sol && ltb 0 amount
      then (if ltb balance needed
          then err (insufficient needed balance)
          else (created_ata wallet account >>= λ created.
              described (after_text "failed to create System Transfer instruction: ")
                (tm.build (Instruction.transfer amount wallet account))
              >>= λ transfer.
                  described (after_text "failed to create SyncNative instruction: ")
                    (tm.build (Instruction.sync_native account))
                  >>= λ sync. ok (created ++ (transfer ∷ sync ∷ []))))
      else ok []

  abbrev pub wsol_instructions :
      PositionSides → String → String × String → Result (List Instruction)
  wsol_instructions s wallet accounts =
      let a_is_sol = str_eq s.mint_a tm.wrapped_sol in
      let b_is_sol = str_eq s.mint_b tm.wrapped_sol in
      let wsol0 = if a_is_sol then s.amount0_max else 0 in
      described (after_text "failed to get SOL balance: ") (tm.balance wallet) >>= λ balance.
      wsol_wrapped a_is_sol s.amount0_max s.amount0_max balance wallet accounts.0 >>= λ first.
      wsol_wrapped b_is_sol s.amount1_max (wsol0 +64 s.amount1_max) balance wallet accounts.1
      >>= λ second. ok (first ++ second)

  -- `int32(n)`
  abbrev pub int32 : ℤ → ℤ
  int32 x = int32_of (uint32 x)

  abbrev pub personal_position : String → Result String
  personal_position program =
      described (after_text "failed to derive position PDA: ")
        (node.find_program_address (codes "position" ∷ node.key_bytes acc.new_wallet ∷ []) program)

  -- `DeriveProtocolPositionPDA`
  abbrev pub protocol_position : String → TickArrays → String → Result String
  protocol_position pool a program =
      described (after_text "failed to derive protocol position PDA: ") (
        node.find_program_address
          (codes "position"
            ∷ node.key_bytes pool
            ∷ be_bytes 4 (uint32 a.tick_lower)
            ∷ be_bytes 4 (uint32 a.tick_upper)
            ∷ [])
          program)

  -- The error beside the tick arrays ends the work.
  abbrev pub checked_arrays : TickArrays → Result TickArrays
  checked_arrays a = elim a.failure [
    | none ↦ ok a
    | some e ↦ err (after_text "failed to find tick arrays: " e)
  ]

  abbrev pub position_of :
      LiquidityKeys D
      → PositionSides
      → String × String
      → String
      → TickArrays
      → String
      → OpenPosition
  position_of k s accounts personal a protocol = record {
    user_wallet = k.user_wallet;
    position_mint = acc.new_wallet;
    pool_state = k.pool_state;
    user_token_a = accounts.0;
    user_token_b = accounts.1;
    token_vault_a = s.vault_a;
    token_vault_b = s.vault_b;
    tick_lower = int32 a.tick_lower;
    tick_upper = int32 a.tick_upper;
    tick_array_lower = a.tick_array_lower;
    tick_array_upper = a.tick_array_upper;
    position_pda = personal;
    amount0_max = s.amount0_max;
    amount1_max = s.amount1_max;
    lower_start = a.lower_start;
    upper_start = a.upper_start;
    protocol_position_pda = protocol;
  }

  -- The positions' addresses and ticks, and the instructions.
  abbrev pub open_position :
      LiquidityKeys D
      → PositionSides
      → String × String
      → String
      → List Instruction
      → String
      → TickArrays
      → Result (List Instruction)
  unfolding build_open_position_instruction
  open_position k s accounts program wraps personal a = do
    arrays ← checked_arrays a
    protocol ← protocol_position k.pool_state arrays program
    ok (
        wraps
        ++ (build_open_position_instruction f logs d node
              (position_of k s accounts personal arrays protocol)
            ∷ []))

  abbrev pub with_vaults :
      AddLiquidityTx → LiquidityKeys D → String → PoolVaults → Option (Result (List Instruction))
  unfolding find_tick_arrays open_position
  with_vaults tx k program p =
      let s = position_sides k p in
      go_on (user_tokens k) λ accounts. go_on (wsol_instructions s k.user_wallet accounts) λ wraps.
        go_on (personal_position program) λ personal.
          and_then
            (find_tick_arrays f logs d node k.pool_state p.tick_spacing (int32 tx.tick_lower)
              (int32 tx.tick_upper) program)
            λ a. some (open_position k s accounts program wraps personal a)

  -- `getPoolInfo`
  abbrev pub pool_program : String → Result String
  pool_program pool =
      described (after_text "failed to get pool info: ")
        (described (after_text "failed to get pool account info: ") (acc.owner pool))

  abbrev pub vaults_data : String → Result (List ℕ)
  vaults_data pool =
      described (after_text "failed to get pool vaults: ")
        (described (after_text "failed to get poolState account info: ") (acc.account_data pool))

  abbrev pub with_data :
      AddLiquidityTx → LiquidityKeys D → String → List ℕ → Option (Result (List Instruction))
  unfolding with_vaults
  with_data tx k program bytes = and_then (pool_vaults acc bytes) (with_vaults tx k program)

  abbrev pub with_pool_program :
      AddLiquidityTx → LiquidityKeys D → String → Option (Result (List Instruction))
  unfolding with_data
  with_pool_program tx k program = go_on (vaults_data k.pool_state) (with_data tx k program)

  -- `CreateAddLiquidityInstructions`; the new wallet is returned beside the instructions.
  unfoldable pub create_add_liquidity_instructions :
      AddLiquidityTx → Option (Result (List Instruction))
  unfolding with_pool_program
  create_add_liquidity_instructions tx =
      go_on (liquidity_keys tx) λ k. go_on (pool_program k.pool_state) (with_pool_program tx k)
