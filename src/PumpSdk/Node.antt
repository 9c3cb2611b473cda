-- ===== src/PumpSdk/Node.antt =====
-- What pkg/pumpfun/pump calls of github.com/gagliardetto/solana-go and of the generated code, and
-- the derived addresses of consts.go and pumpfun.go. Keys are their texts in base 58.
use greet.Base.{ℕ, String, List, [], ◌∷◌, Option, Result, ok, ◌>>=◌, described, after_text}
use greet.Base.Text.{codes}

pub record PumpNode : Type 0 where
  -- `FindProgramAddress`: the address of seeds under a program, with its bump
  pub find_program_address : List (List ℕ) → String → Result (String × ℕ)
  -- `FindAssociatedTokenAddress` of a wallet and a mint
  pub find_ata : String → String → Result String
  pub key_bytes : String → List ℕ
  -- `PublicKeyFromBytes`, `PublicKeyFromBase58`
  pub key_of_bytes : List ℕ → String
  pub public_key : String → Result String
  -- the data of an account, if it is there and has data
  pub account : String → Result (Option (List ℕ))
  -- the fee recipient that the Global account says, decoded by generated code
  pub fee_recipient : List ℕ → Result String
  -- `GetTokenAccountBalance`, and `strconv.Atoi` of its text, as a uint64
  pub token_balance : String → Result String
  pub atoi : String → Result ℕ

abbrev pub pump_program : String
pump_program = "6EF8rrecthR5Dkzon8Nwu78hRvfCKubJ14M5uBEwF6P"

abbrev pub global_address : String
global_address = "4wTV1YmiEkRvAtNtsSGPtUrqRYQMe5SKy2uB4Jjaxnjf"

abbrev pub event_authority : String
event_authority = "Ce6TQqeHC9p8KetsN6JsjHK7UTZk7nasjjnr7XxXp9F1"

abbrev pub pump_fee_recipient : String
pump_fee_recipient = "CebN5WGQ4jvEPvsVU4EoHEpgzq1VV7AbicfhtW4xC9iM"

abbrev pub system_program : String
system_program = "11111111111111111111111111111111"

abbrev pub token_program : String
token_program = "TokenkegQfeZyiNwAJbNbGKPFXCWuBvf9Ss623VQ5DA"

-- The bonding curve of a mint and the curve's token account.
pub record CurveKeys : Type 0 where
  pub bonding_curve : String
  pub associated_bonding_curve : String

module _ (node : PumpNode) where
  abbrev pub curve_seeds : String → List (List ℕ)
  curve_seeds mint = codes "bonding-curve" ∷ node.key_bytes mint ∷ []

  abbrev pub vault_seeds : String → List (List ℕ)
  vault_seeds creator = codes "creator-vault" ∷ node.key_bytes creator ∷ []

  -- `GetBondingCurveAndAssociatedBondingCurve`
  unfoldable pub get_curve_keys : String → Result CurveKeys
  get_curve_keys mint = do
    curve ←
        described (after_text "failed to derive bonding curve address: ")
          (node.find_program_address (curve_seeds mint) pump_program)
    associated ←
        described (after_text "failed to derive associated bonding curve address: ")
          (node.find_ata curve.0 mint)
    ok (record { bonding_curve = curve.0; associated_bonding_curve = associated })

  -- `GetBondingCurvePDA`
  unfoldable pub get_bonding_curve_pda : String → Result (String × ℕ)
  get_bonding_curve_pda mint =
      described (after_text "failed to find bonding curve PDA: ")
        (node.find_program_address (curve_seeds mint) pump_program)

  -- `GetCreatorVaultPDA`
  unfoldable pub get_creator_vault_pda : String → Result (String × ℕ)
  get_creator_vault_pda creator =
      described (after_text "failed to find creator vault PDA: ")
        (node.find_program_address (vault_seeds creator) pump_program)

  -- `GetCreatorVault` and `GetCreatorVaultDynamic`, which spell the same seed in two ways.
  unfoldable pub get_creator_vault : String → Result String
  get_creator_vault creator = do
    vault ←
        node.find_program_address
          ((99 ∷ 114 ∷ 101 ∷ 97 ∷ 116 ∷ 111 ∷ 114 ∷ 45 ∷ 118 ∷ 97 ∷ 117 ∷ 108 ∷ 116 ∷ [])
            ∷ node.key_bytes creator
            ∷ [])
          pump_program
    ok vault.0

  unfoldable pub get_creator_vault_dynamic : String → Result String
  get_creator_vault_dynamic creator = do
    vault ← node.find_program_address (vault_seeds creator) pump_program
    ok vault.0
