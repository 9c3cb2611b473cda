-- ===== src/Solana/Positions/Opens.antt =====
-- What the instruction that opens a position says.
use greet.Base.{
  ℕ, ◌+◌, ◌-◌, ◌%◌, ◌^◌, ◌<◌, ◌≤◌, ltb, ◌≡◌, refl, ap, ◌∙◌, String, true, false, if◌then◌else◌,
  if_true, if_false, List, [], ◌∷◌, ◌++◌, drop, Floats, Decimals, arith,
}
use greet.Base.Bytes.{
  little_endian, le_bytes, little_endian-le_bytes, uint64_of, uint64_of-le_bytes,
}
use greet.Base.Int.{ℤ, pos, negsuc, pos_part, neg_part}
use greet.Solana.Types.{AccountMeta, Instruction}
use greet.Solana.Pools.{PoolNode, raydium_program}
use greet.Solana.Positions.{
  int32_of, Logs, OpenPosition, uint32, position_bytes, position_accounts, metadata_account,
  position_ata, build_open_position_instruction,
}

abbrev pub InInt32 : ℤ → Type 0
InInt32 x = (pos_part x < 2 ^ 31) × (neg_part x ≤ 2 ^ 31)

int32_of-uint32 : (x : ℤ) → InInt32 x → int32_of (uint32 x) ≡ x
int32_of-uint32 (pos n) (h, _) =
    let same : n % 2 ^ 32 ≡ n = omega arith in
    let small : ltb n (2 ^ 31) ≡ true = ground arith in rw same (if_true _ _ small)
int32_of-uint32 (negsuc n) (_, h) =
    let back : (2 ^ 32 - (n + 1) % 2 ^ 32) % 2 ^ 32 ≡ 2 ^ 32 - 1 - n = omega arith in
    let big : ltb (2 ^ 32 - 1 - n) (2 ^ 31) ≡ false = ground arith in
    let again : 2 ^ 32 - 1 - (2 ^ 32 - 1 - n) ≡ n = omega arith in
    rw back (if_false _ _ big ∙ ap negsuc again)

uint32_lt : (x : ℤ) → uint32 x < 256 ^ 4
uint32_lt (pos n) = omega arith
uint32_lt (negsuc n) = omega arith

abbrev pub int32_at : ℕ → List ℕ → ℤ
int32_at k bytes = int32_of (little_endian 4 (drop k bytes))

read_int32 :
    (x : ℤ) (rest : List ℕ)
    → InInt32 x
    → int32_of (little_endian 4 (le_bytes 4 (uint32 x) ++ rest)) ≡ x
read_int32 x rest h =
    ap int32_of (little_endian-le_bytes 4 (uint32 x) rest (uint32_lt x)) ∙ int32_of-uint32 x h

abbrev pub signers : List AccountMeta → List String
signers [] = []
signers (a ∷ xs) = if a.signer then a.key ∷ signers xs else signers xs

-- The places of an instruction's bytes.
abbrev pub Reads : OpenPosition → List ℕ → Type 0
Reads p bytes =
    (int32_at 8 bytes ≡ p.tick_lower)
    × (int32_at 12 bytes ≡ p.tick_upper)
    × (int32_at 16 bytes ≡ p.lower_start)
    × (int32_at 20 bytes ≡ p.upper_start)
    × (uint64_of (drop 24 bytes) ≡ p.amount0_max)
    × (uint64_of (drop 32 bytes) ≡ 0)
    × (uint64_of (drop 40 bytes) ≡ p.amount0_max)
    × (uint64_of (drop 48 bytes) ≡ p.amount1_max)

abbrev pub Opens : OpenPosition → Instruction → Type 0
Opens p i =
    (accounts : List AccountMeta) × (bytes : List ℕ) × (i
      ≡ Instruction.program raydium_program accounts bytes)
    × (signers accounts ≡ p.user_wallet ∷ p.user_wallet ∷ p.position_mint ∷ [])
    × Reads p bytes

-- The ticks and the amounts of a position have their widths.
abbrev pub Fits : OpenPosition → Type 0
Fits p =
    InInt32 p.tick_lower
    × InInt32 p.tick_upper
    × InInt32 p.lower_start
    × InInt32 p.upper_start
    × (p.amount0_max < 2 ^ 64)
    × (p.amount1_max < 2 ^ 64)

module _ (f : Floats) (logs : Logs f) (d : Decimals f.F) (node : PoolNode d) where
  -- Where the ticks fit in 32 bits and the amounts in 64, the instruction is one of Raydium's
  -- program that the wallet signs twice and the mint of the position once, and no other account;
  -- its bytes give back both ticks, the starts of both arrays, a liquidity equal to the first
  -- amount, and both amounts.
  pub build_open_position_instruction-Opens :
      (p : OpenPosition) → Fits p → Opens p (build_open_position_instruction f logs d node p)
  unfolding build_open_position_instruction
  build_open_position_instruction-Opens p (low, high, start, end, a0, a1) =
      let rest : ℕ → List ℕ = λ k. drop k (position_bytes p) in
      (
        position_accounts p (metadata_account f logs d node p.position_mint)
            (position_ata f logs d node p.user_wallet p.position_mint),
        position_bytes p,
        refl,
        refl,
        (
          read_int32 p.tick_lower (rest 12) low,
          read_int32 p.tick_upper (rest 16) high,
          read_int32 p.lower_start (rest 20) start,
          read_int32 p.upper_start (rest 24) end,
          uint64_of-le_bytes p.amount0_max (rest 32) a0,
          refl,
          uint64_of-le_bytes p.amount0_max (rest 48) a0,
          uint64_of-le_bytes p.amount1_max (rest 56) a1,
        ),
      )
