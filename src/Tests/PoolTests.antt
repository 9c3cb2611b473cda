-- ===== src/Tests/PoolTests.antt =====
-- A pool of two tokens whose price is 3.
use greet.Base.{ap, ℕ, ◌≡◌, refl, String, List, [], ◌∷◌, ◌++◌, ok, some, arith}
use greet.Base.Int.{pos}
use greet.Base.Text.{codes}
use greet.Solana.Types.{Instruction}
use greet.Solana.Pools.{
  CreatePoolTx, PoolNode, PoolKeys, create_pool_instructions, find_raydium_pool_pdas, pool_accounts,
  pool_bytes, compute_budget_instructions, raydium_program, build_unsigned_pool_transaction,
}
use greet.Solana.Pools.Order.{exchanged, create_pool_instructions-exchanged}
use greet.Solana.Pools.Made.{PoolMade, create_pool_instructions-PoolMade}
use greet.Tests.Concrete.{decimals}
use greet.Tests.SolanaTests.{manager, network}
use greet.Tests.UnsignedTests.{wire}

abbrev pub node : PoolNode decimals
node = record {
  find_program_address = λ seeds program. ok "pda";
  key_bytes = codes;
  sqrt_f = λ x. some 2;
  big_int = pos;
}

abbrev tx : CreatePoolTx
tx = record {
  chain_id = 100000;
  token_mint0 = "tok";
  token_mint1 = "sol";
  initial_price = "3";
  fee_tier = 30;
  open_time = 1700000000;
  user_wallet_address = "wallet";
}

abbrev keys : PoolKeys
keys = record {
  pool_state = "pda";
  token_vault0 = "pda";
  token_vault1 = "pda";
  observation_state = "pda";
  tick_array_bitmap = "pda";
}

abbrev made : List Instruction
made =
    compute_budget_instructions
    ++ (Instruction.program raydium_program
          (pool_accounts "wallet" "FiyUUSnhBgLhBgVGWNBVozhzSbAbFCU1Q8iWMHH3xUhA" "sol" "tok" keys)
          (pool_bytes (pos 2) 1700000000)
        ∷ [])

tx_made : create_pool_instructions decimals node manager tx ≡ some (ok made)
unfolding create_pool_instructions find_raydium_pool_pdas
tx_made = refl

unsigned_made :
    build_unsigned_pool_transaction decimals node manager network wire tx ≡ some (ok "aaa")
unfolding build_unsigned_pool_transaction create_pool_instructions find_raydium_pool_pdas
unsigned_made = refl

abbrev first_code : List ℕ → ℕ
first_code [] = 0
first_code (c ∷ cs) = c

tok_is_sol : codes "tok" ≡ codes "sol" → ◌≡◌ {A = String} "tok" "sol"
tok_is_sol same = let lie : 116 ≡ 115 = ap first_code same in absurd (omega (arith, lie))

create_pool_instructions-exchanged_example :
    create_pool_instructions decimals node manager (exchanged decimals node manager tx)
    ≡ create_pool_instructions decimals node manager tx
create_pool_instructions-exchanged_example =
    create_pool_instructions-exchanged decimals node manager tx refl refl tok_is_sol

create_pool_instructions-PoolMade_example : PoolMade decimals node manager tx made
create_pool_instructions-PoolMade_example =
    create_pool_instructions-PoolMade decimals node manager tx (omega arith) tx_made
