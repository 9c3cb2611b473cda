-- ===== src/Solana/Liquidity/Sides.antt =====
-- What the instructions for a position say of the two mints of the pool.
use greet.Base.{
  ℕ, ◌<◌, ◌^◌, ◌≡◌, refl, sym, take, drop, arith, ap, ◌∙◌, String, true, List, [], ◌∷◌, ◌++◌,
  Option, some, and_then, and_then-eq_some, Result, ok, >>=-eq-ok, ok-injective, go_on,
  go_on-eq_some, described, after_text, Floats, Decimals,
}
use mathlib.Core.Path.{subst}
use mathlib.Core.Option.{some-injective}
use greet.Base.Bytes.{uint64_of, uint64_of-le_bytes}
use greet.Base.Int.{ℤ, pos, negsuc}
use greet.Solana.Types.{AccountMeta, Instruction, Manager, uint64}
use greet.Solana.Pools.{PoolNode, raydium_program}
use greet.Solana.Positions.{
  Logs, TickArrays, token_program, ata_program, find_tick_arrays, position_accounts, position_bytes,
  metadata_account, position_ata, build_open_position_instruction,
}
use greet.Solana.Liquidity.{
  AddLiquidityTx, Accounts, PoolVaults, LiquidityKeys, PositionSides, pool_vaults, is_below,
  liquidity_keys, user_tokens, position_sides, wsol_instructions, personal_position,
  protocol_position, checked_arrays, int32, open_position, position_of, pool_program, vaults_data,
  with_data, with_pool_program, with_vaults, create_add_liquidity_instructions,
}
use greet.Solana.Liquidity.Aligned.{Aligned, SamePair, Asks, position_sides-Aligned}

uint64_lt : (x : ℤ) → uint64 x < 2 ^ 64
uint64_lt (pos n) = omega arith
uint64_lt (negsuc n) = omega arith

abbrev pub keys_of : List AccountMeta → List String
keys_of [] = []
keys_of (a ∷ xs) = a.key ∷ keys_of xs

go_on_ok {ℓ κ} :
    {A : Type ℓ} {B : Type κ} (r : Result A) (f : A → Option (Result B)) {a : A}
    → r ≡ ok a
    → go_on r f ≡ f a
go_on_ok r f known = rw known refl

and_then-some {ℓ κ} :
    {A : Type ℓ} {B : Type κ} (m : Option A) (f : A → Option B) {a : A}
    → m ≡ some a
    → and_then m f ≡ f a
and_then-some m f known = rw known refl

module _ (f : Floats) (logs : Logs f) (d : Decimals f.F) (node : PoolNode d) (tm : Manager)
    (acc : Accounts) where
  open d use {D}

  -- The instructions for a position: those that wrap SOL, then the one that opens it.
  abbrev Ordered : LiquidityKeys D → PoolVaults → List Instruction → Type 0
  Ordered k p is =
      (accounts : String × String) × (wraps : List Instruction) × (personal : String)
      × (a : TickArrays) × (protocol : String) × (is
          ≡ wraps
            ++ (build_open_position_instruction f logs d node (
                  position_of f logs d node tm acc k (position_sides f logs d node tm acc k p)
                    accounts personal a protocol)
                ∷ []))
      × Aligned f logs d node tm acc k p (position_sides f logs d node tm acc k p) accounts

  -- The user's token account of a mint.
  abbrev pub HasTokens : LiquidityKeys D → String → String → Type 0
  HasTokens k mint account =
      node.find_program_address
        (node.key_bytes k.user_wallet ∷ node.key_bytes token_program ∷ node.key_bytes mint ∷ [])
        ata_program
      ≡ ok account

  -- An amount in billionths, in 64 bits.
  abbrev pub Billionths : D → ℕ → Type 0
  Billionths amount n = n ≡ uint64 (d.int_part (d.mul_d amount (d.scaled (pos 1) (pos 9))))

  -- What the accounts and the bytes of an opened position say of the two mints of the pool: the
  -- user's accounts and the vaults, in the order of the mints, and the most that is paid of each.
  abbrev pub ForMints : LiquidityKeys D → PoolVaults → List AccountMeta → List ℕ → Type 0
  ForMints k p metas bytes =
      (low : D) × (high : D) × (user0 : String) × (user1 : String) × Asks f logs d node tm acc k
        p.token_mint0 low
      × Asks f logs d node tm acc k p.token_mint1 high
      × HasTokens k p.token_mint0 user0
      × HasTokens k p.token_mint1 user1
      × (take 4 (drop 10 (keys_of metas)) ≡ user0 ∷ user1 ∷ p.token_vault0 ∷ p.token_vault1 ∷ [])
      × Billionths low (uint64_of (drop 40 bytes))
      × Billionths high (uint64_of (drop 48 bytes))

  abbrev pub LiquidityAdded : LiquidityKeys D → PoolVaults → List Instruction → Type 0
  LiquidityAdded k p is =
      (wraps : List Instruction) × (metas : List AccountMeta) × (bytes : List ℕ) × (is
        ≡ wraps ++ (Instruction.program raydium_program metas bytes ∷ []))
      × ForMints k p metas bytes

  position_of-ForMints :
      (k : LiquidityKeys D) (p : PoolVaults) (accounts : String × String) (personal : String)
      (a : TickArrays) (protocol : String)
      → (s : PositionSides) → Aligned f logs d node tm acc k p s accounts
      → ForMints k p
          (position_accounts
            (position_of f logs d node tm acc k s accounts personal a protocol)
            (metadata_account f logs d node acc.new_wallet)
            (position_ata f logs d node k.user_wallet acc.new_wallet))
          (position_bytes (position_of f logs d node tm acc k s accounts personal a protocol))
  position_of-ForMints k p accounts personal a protocol s
        (low, high, asks0, asks1, vault0, vault1, max0, max1, user0, user1) =
      let o = position_of f logs d node tm acc k s accounts personal a protocol in
      let rest : ℕ → List ℕ = λ n. drop n (position_bytes o) in
      (
        low,
        high,
        accounts.0,
        accounts.1,
        asks0,
        asks1,
        user0,
        user1,
        rw vault0 (rw vault1 refl),
        uint64_of-le_bytes s.amount0_max (rest 48)
              (subst (λ n. n < 2 ^ 64) (sym max0) (uint64_lt _))
            ∙ max0,
        uint64_of-le_bytes s.amount1_max (rest 56)
              (subst (λ n. n < 2 ^ 64) (sym max1) (uint64_lt _))
            ∙ max1,
      )

  Ordered-LiquidityAdded :
      (k : LiquidityKeys D) (p : PoolVaults) {is : List Instruction}
      → Ordered k p is
      → LiquidityAdded k p is
  unfolding build_open_position_instruction
  Ordered-LiquidityAdded k p (accounts, wraps, personal, a, protocol, built, aligned) =
      let s = position_sides f logs d node tm acc k p in
      let o = position_of f logs d node tm acc k s accounts personal a protocol in
      (
        wraps,
        position_accounts o (metadata_account f logs d node acc.new_wallet)
            (position_ata f logs d node k.user_wallet acc.new_wallet),
        position_bytes o,
        built,
        position_of-ForMints k p accounts personal a protocol s aligned,
      )

  open_position-inv :
      (k : LiquidityKeys D) (s : PositionSides) (accounts : String × String) (program : String)
      (wraps : List Instruction) (personal : String) (a : TickArrays) {is : List Instruction}
      → open_position f logs d node tm acc k s accounts program wraps personal a ≡ ok is
      → (arrays : TickArrays) × (protocol : String) × (is
          ≡ wraps
            ++ (build_open_position_instruction f logs d node
                  (position_of f logs d node tm acc k s accounts personal arrays protocol)
                ∷ []))
  unfolding open_position
  open_position-inv k s accounts program wraps personal a h =
      let (arrays, _, h1) = >>=-eq-ok (checked_arrays f logs d node tm acc a) _ h in
      let (protocol, _, h2) =
        >>=-eq-ok (protocol_position f logs d node tm acc k.pool_state arrays program) _ h1 in
      (arrays, protocol, sym (ok-injective _ _ h2))

  with_vaults-Ordered :
      (tx : AddLiquidityTx) (k : LiquidityKeys D) (program : String) (p : PoolVaults)
      {is : List Instruction}
      → is_below f logs d node tm acc p.token_mint0 p.token_mint1 ≡ true
      → SamePair f logs d node tm acc k p
      → with_vaults f logs d node tm acc tx k program p ≡ some (ok is)
      → Ordered k p is
  unfolding with_vaults
  with_vaults-Ordered tx k program p ordered pair h =
      let s = position_sides f logs d node tm acc k p in
      let (accounts, made, h1) = go_on-eq_some (user_tokens f logs d node tm acc k) _ h in
      let (wraps, _, h2) =
        go_on-eq_some (wsol_instructions f logs d node tm acc s k.user_wallet accounts) _ h1 in
      let (personal, _, h3) = go_on-eq_some (personal_position f logs d node tm acc program) _ h2 in
      let (a, _, h4) =
        and_then-eq_some
          (find_tick_arrays f logs d node k.pool_state p.tick_spacing
            (int32 f logs d node tm acc tx.tick_lower) (int32 f logs d node tm acc tx.tick_upper)
            program)
          _ h3 in
      let (arrays, protocol, built) =
        open_position-inv k s accounts program wraps personal a (some-injective _ _ h4) in
      (
        accounts,
        wraps,
        personal,
        arrays,
        protocol,
        built,
        position_sides-Aligned f logs d node tm acc k p ordered pair made,
      )

  -- For a request whose keys and amounts can be read and a pool whose account names the two tokens
  -- of the request, in either order, with the lower key first, the instructions end with one of
  -- Raydium's program whose accounts from the eleventh on are the user's token accounts of the
  -- pool's mints and the pool's vaults of them, both in the order of the mints, and whose bytes at
  -- 40 and 48 are the amounts that the request names for the first and the second mint, in
  -- billionths and in 64 bits.
  pub create_add_liquidity_instructions-LiquidityAdded :
      (tx : AddLiquidityTx) (k : LiquidityKeys D) (bytes : List ℕ) (p : PoolVaults)
      {is : List Instruction}
      → liquidity_keys f logs d node tm acc tx ≡ ok k
      → acc.account_data k.pool_state ≡ ok bytes
      → pool_vaults acc bytes ≡ some p
      → is_below f logs d node tm acc p.token_mint0 p.token_mint1 ≡ true
      → SamePair f logs d node tm acc k p
      → create_add_liquidity_instructions f logs d node tm acc tx ≡ some (ok is)
      → LiquidityAdded k p is
  unfolding create_add_liquidity_instructions with_pool_program with_data
  create_add_liquidity_instructions-LiquidityAdded tx k bytes p {is} known read vaults ordered pair
        h =
      let h0 = sym (go_on_ok (liquidity_keys f logs d node tm acc tx) _ known) ∙ h in
      let (program, _, h1) =
        go_on-eq_some (pool_program f logs d node tm acc k.pool_state)
          (with_pool_program f logs d node tm acc tx k) h0 in
      let stated =
        ap
          (λ r.
            described (after_text "failed to get pool vaults: ")
              (described (after_text "failed to get poolState account info: ") r))
          read in
      let h2 =
        sym (
          go_on_ok (vaults_data f logs d node tm acc k.pool_state)
            (with_data f logs d node tm acc tx k program) stated)
        ∙ h1 in
      let h3 =
        sym (
          and_then-some (pool_vaults acc bytes) (with_vaults f logs d node tm acc tx k program)
            vaults)
        ∙ h2 in
      Ordered-LiquidityAdded k p (with_vaults-Ordered tx k program p ordered pair h3)
