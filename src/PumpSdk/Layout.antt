-- ===== src/PumpSdk/Layout.antt =====
-- buy.go and sell.go: the accounts and the data of a buy and a sell.
use greet.Base.{ℕ, String, true, false, List, [], ◌∷◌, ◌++◌, Result, ok, err}
use greet.Base.Bytes.{le_bytes}
use greet.Base.Text.{codes}
use greet.Solana.Types.{AccountMeta, Instruction}
use greet.PumpSdk.Node.{
  PumpNode, pump_program, global_address, event_authority, system_program, token_program, CurveKeys,
}

-- `Meta(key)`, `.WRITE()` and `.SIGNER()`
abbrev pub meta : String → AccountMeta
meta key = record { key = key; writable = false; signer = false }

abbrev pub writes : String → AccountMeta
writes key = record { key = key; writable = true; signer = false }

abbrev pub signed : String → AccountMeta
signed key = record { key = key; writable = true; signer = true }

-- The twelve accounts that both have.
abbrev pub swap_accounts : String → String → CurveKeys → String → String → String → List AccountMeta
swap_accounts recipient mint keys associated_user user creator_vault =
    writes global_address
    ∷ writes recipient
    ∷ writes mint
    ∷ writes keys.bonding_curve
    ∷ writes keys.associated_bonding_curve
    ∷ writes associated_user
    ∷ signed user
    ∷ meta system_program
    ∷ writes token_program
    ∷ writes creator_vault
    ∷ writes event_authority
    ∷ meta pump_program
    ∷ []

abbrev pub fee_program : String
fee_program = "pfeeUxB6jkeY1Hxd7CsFCAjcbHA9rWtchMGdZ6VojVZ"

abbrev pub fee_config_seed_key : List ℕ
fee_config_seed_key =
    1 ∷ 86 ∷ 224 ∷ 246 ∷ 147 ∷ 102 ∷ 90 ∷ 207 ∷ 68 ∷ 219 ∷ 21 ∷ 104 ∷ 191 ∷ 23 ∷ 91 ∷ 170 ∷ 81 ∷ 137
    ∷ 203 ∷ 151 ∷ 245 ∷ 210 ∷ 255 ∷ 59 ∷ 101 ∷ 93 ∷ 43 ∷ 182 ∷ 253 ∷ 109 ∷ 24 ∷ 176 ∷ []

-- A derived address, or another account where there is none.
abbrev pub derived_or : AccountMeta → (String → AccountMeta) → Result (String × ℕ) → AccountMeta
derived_or other as_meta (ok key) = as_meta key.0
derived_or other as_meta (err e) = other

abbrev pub buy_discriminator : List ℕ
buy_discriminator = 102 ∷ 6 ∷ 61 ∷ 18 ∷ 1 ∷ 218 ∷ 235 ∷ 234 ∷ []

-- The tokens to buy, the highest cost in SOL, and `track_volume`.
abbrev pub buy_bytes : ℕ → ℕ → List ℕ
buy_bytes amount max_sol_cost =
    buy_discriminator ++ (le_bytes 8 amount ++ (le_bytes 8 max_sol_cost ++ (1 ∷ [])))

module _ (node : PumpNode) where
  -- The four accounts that only a buy has.
  abbrev pub extra_accounts : String → List AccountMeta
  extra_accounts user =
      derived_or (writes global_address) writes
        (node.find_program_address (codes "global_volume_accumulator" ∷ []) pump_program)
      ∷ derived_or (writes user) writes (
          node.find_program_address (codes "user_volume_accumulator" ∷ node.key_bytes user ∷ [])
            pump_program)
      ∷ derived_or (meta fee_program) meta
          (node.find_program_address (codes "fee_config" ∷ fee_config_seed_key ∷ []) fee_program)
      ∷ meta fee_program
      ∷ []

  -- `buildBuyInstructionWithCreatorVault`
  unfoldable pub buy_instruction :
      ℕ → ℕ → String → String → CurveKeys → String → String → String → Instruction
  buy_instruction amount max_sol_cost recipient mint keys associated_user user creator_vault =
      Instruction.program pump_program
        (swap_accounts recipient mint keys associated_user user creator_vault
          ++ extra_accounts user)
        (buy_bytes amount max_sol_cost)

abbrev pub sell_discriminator : List ℕ
sell_discriminator = 51 ∷ 230 ∷ 133 ∷ 164 ∷ 1 ∷ 127 ∷ 131 ∷ 173 ∷ []

-- The tokens to sell and the lowest output in SOL.
abbrev pub sell_bytes : ℕ → ℕ → List ℕ
sell_bytes amount min_sol = sell_discriminator ++ (le_bytes 8 amount ++ le_bytes 8 min_sol)

-- `buildSellInstructionWithCreatorVault`
unfoldable pub sell_instruction :
    ℕ → ℕ → String → String → CurveKeys → String → String → String → Instruction
sell_instruction amount min_sol recipient mint keys associated_user user creator_vault =
    Instruction.program pump_program
      (swap_accounts recipient mint keys associated_user user creator_vault)
      (sell_bytes amount min_sol)
