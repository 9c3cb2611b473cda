-- ===== src/PumpSdk/Creator.antt =====
-- consts.go: the creator of a token and the creator's vault.
use Prim.Native.String.{len, ◌++◌ as ◌<>◌}
use greet.Base.{
  ℕ, ◌+◌, ◌==◌, ltb, leb, String, str_eq, Bool, true, false, ◌&&◌, not, if◌then◌else◌, List, [],
  ◌∷◌, take, drop, length, Option, none, some, Error, Result, ok, err, ◌>>=◌, described, after_text,
}
use greet.Base.Text.{itoa}
use greet.PumpSdk.Node.{PumpNode, system_program, get_bonding_curve_pda, get_creator_vault_pda}

pub record CreatorVault : Type 0 where
  pub creator : String
  pub creator_vault : String
  pub bump : ℕ

abbrev pub bytes_at : ℕ → List ℕ → List ℕ
bytes_at offset bytes = take 32 (drop offset bytes)

abbrev pub some_data : Result (Option (List ℕ)) → Error → Result (List ℕ)
some_data (err e) missing = err (after_text "failed to fetch bonding curve account: " e)
some_data (ok none) missing = err missing
some_data (ok (some bytes)) missing = ok bytes

-- The creator stands after the discriminator, five numbers and a flag.
unfoldable pub creator_of_curve : PumpNode → List ℕ → Result String
creator_of_curve node bytes =
    if ltb (length bytes) 8
    then err (Error.other "account data too short for discriminator")
    else if ltb (length bytes) 81
    then err (
        Error.other
          ("account data too short for creator field: need 81 bytes, got " <> itoa (length bytes)))
    else ok (node.key_of_bytes (bytes_at 49 bytes))

-- `GetCreatorVaultFromMint`
unfoldable pub get_creator_vault_from_mint : PumpNode → String → Result CreatorVault
unfolding get_bonding_curve_pda creator_of_curve get_creator_vault_pda
get_creator_vault_from_mint node mint = do
  curve ←
      described (after_text "failed to derive bonding curve PDA: ")
        (get_bonding_curve_pda node mint)
  bytes ← some_data (node.account curve.0) (Error.other "bonding curve account not found")
  creator ← creator_of_curve node bytes
  vault ←
      described (after_text "failed to derive creator vault PDA: ")
        (get_creator_vault_pda node creator)
  ok (record { creator = creator; creator_vault = vault.0; bump = vault.1 })

-- The three functions that parse a mint first differ by their texts.
abbrev pub of_mint_text : String → PumpNode → String → Result CreatorVault
of_mint_text what node text = do
  mint ← described (after_text "invalid token mint: ") (node.public_key text)
  described (after_text what) (get_creator_vault_from_mint node mint)

-- `GetCreatorFromToken`
unfoldable pub get_creator_from_token : PumpNode → String → Result String
unfolding get_creator_vault_from_mint
get_creator_from_token node text = do
  r ← of_mint_text "failed to get creator from mint: " node text
  ok r.creator

-- `GetCreatorAndVault`
unfoldable pub get_creator_and_vault : PumpNode → String → Result (String × String)
unfolding get_creator_vault_from_mint
get_creator_and_vault node text = do
  r ← of_mint_text "failed to get creator and vault: " node text
  ok (r.creator, r.creator_vault)

-- `GetCreatorAndVaultFromTransactions`, which looks at no transaction.
unfoldable pub get_creator_and_vault_from_transactions :
    PumpNode → String → Result (String × String)
unfolding get_creator_vault_from_mint
get_creator_and_vault_from_transactions node text = do
  r ← of_mint_text "failed to get creator vault from mint: " node text
  ok (r.creator, r.creator_vault)

-- `isAllZeros`
abbrev pub is_all_zeros : List ℕ → Bool
is_all_zeros [] = true
is_all_zeros (b ∷ bs) = b == 0 && is_all_zeros bs

abbrev pub same_bytes : List ℕ → List ℕ → Bool
same_bytes [] bs = true
same_bytes (e ∷ es) [] = false
same_bytes (e ∷ es) (b ∷ bs) = e == b && same_bytes es bs

abbrev pub curve_discriminator : List ℕ
curve_discriminator = 23 ∷ 183 ∷ 248 ∷ 55 ∷ 96 ∷ 216 ∷ 172 ∷ 96 ∷ []

abbrev pub creator_not_found : Error
creator_not_found = Error.other "CREATOR NOT FOUND"

module _ (node : PumpNode) where
  abbrev pub is_creator : List ℕ → Bool
  is_creator bytes =
      not (is_all_zeros bytes)
      && len (node.key_of_bytes bytes) == 44
      && not (str_eq (node.key_of_bytes bytes) system_program)

  pub creator_at : List ℕ → List ℕ → Result String
  creator_at [] bytes = err (Error.other "could not extract creator from unknown pool type")
  creator_at (offset ∷ offsets) bytes =
      let rest = creator_at offsets bytes in
      if leb (offset + 32) (length bytes)
      then (if is_creator (bytes_at offset bytes)
          then ok (node.key_of_bytes (bytes_at offset bytes))
          else rest)
      else rest

  -- `extractCreatorGeneric`
  unfoldable pub extract_creator_generic : List ℕ → Result String
  unfolding creator_at
  extract_creator_generic bytes = creator_at (11 ∷ 8 ∷ 40 ∷ 72 ∷ 0 ∷ 32 ∷ []) bytes

  -- `extractCreatorFromBondingCurveData`; the text of its last error is shortened.
  unfoldable pub extract_creator_from_bonding_curve_data : List ℕ → Result String
  unfolding extract_creator_generic
  extract_creator_from_bonding_curve_data bytes =
      if ltb (length bytes) 49
      then err (
          Error.other (
            "insufficient data length for bonding curve: need at least 49 bytes, got "
            <> itoa (length bytes)))
      else if same_bytes curve_discriminator bytes
      then err creator_not_found
      else extract_creator_generic bytes

  -- `getCreatorFromBondingCurve`
  abbrev pub creator_of_account : Result (Option (List ℕ)) → Result String
  creator_of_account (err e) = err (after_text "failed to fetch account: " e)
  creator_of_account (ok none) = err (Error.other "account not found or has no data")
  creator_of_account (ok (some bytes)) =
      described (after_text "failed to extract creator: ")
        (extract_creator_from_bonding_curve_data bytes)

  unfoldable pub get_creator_from_bonding_curve : String → Result String
  unfolding extract_creator_from_bonding_curve_data
  get_creator_from_bonding_curve key = creator_of_account (node.account key)
