-- ===== src/Tokens/Info.antt =====
-- block/token.go: `GetTokenTotalSupply`, `GetTokenProgram`, `GetTokenInfo` and `GetToken2022Info`.
-- `none` is a panic: a mint of less than 82 bytes, JSON that is `null`.
use Prim.Native.String.{◌++◌ as ◌<>◌}
use greet.Base.{
  ltb, ◌==◌, String, str_eq, true, false, if◌then◌else◌, List, [], ◌∷◌, length, take, Option, none,
  some, Error, error_text, Result, ok, err, Decimals,
}
use greet.Base.Int.{pos}
use greet.Transfers.Types.{program_token, program_token2022}
use greet.Tokens.Types.{MetaData, TokenInfo, no_uri_data, Extension, Account, Web}
use greet.Tokens.Uri.{Got, Reading, read_uri}

abbrev pub about : String → Error → String → Error
about what e address = Error.other (what <> error_text e <> ", token address: " <> address)

-- `common.SystemProgramID`, which is also the empty key.
abbrev pub system_program : String
system_program = "11111111111111111111111111111111"

abbrev pub failed_with : Option TokenInfo → Error → Got
failed_with i e = record { info = i; error = some e }

abbrev pub empty_info : TokenInfo
empty_info = record { name = ""; symbol = ""; uri = no_uri_data }

module _ (web : Web) where
  -- `GetTokenProgram`, whose error the callers drop.
  abbrev pub program_of : String → Result Account → String × Option Error
  program_of address (err e) =
      (system_program, some (about "GetTokenMintInfo token err:" e address))
  program_of address (ok a) =
      if str_eq a.owner program_token2022
      then (program_token2022, none)
      else if str_eq a.owner program_token
      then (program_token, none)
      else (system_program, some (Error.other "not support"))

  unfoldable pub get_token_program : String → String × Option Error
  get_token_program address = program_of address (web.account address)

  module _ {F : Type 0} (d : Decimals F) where
    -- `GetTokenTotalSupply`
    unfoldable pub get_token_total_supply : String → Result d.D
    get_token_total_supply address = elim (web.token_supply address) [
      | ok (amount, decimals) ↦
          ok (d.div_d (d.of_int (pos amount)) (d.scaled (pos 1) (pos decimals)))
      | err e ↦ err (about "GetTokenTotalSupply token err:" e address)
    ]

  -- `GetTokenInfo`
  abbrev pub got_of : Reading → Got
  got_of (Reading.goes_on i) = record { info = some i; error = none }
  got_of (Reading.returned g) = g

  -- With the metadata account of the token.
  abbrev pub with_metadata : String → Result MetaData → Got
  with_metadata address (err e) =
      failed_with (some empty_info)
        (Error.other ("deserialize metaAccount data err:" <> error_text e))
  with_metadata address (ok m) =
      got_of
        (read_uri web false address m.uri (record empty_info { name = m.name; symbol = m.symbol }))

  abbrev pub with_meta_account : String → Result Account → Got
  with_meta_account address (err e) =
      failed_with (some empty_info)
        (Error.other ("GetTokenInfo:GetAccountInfoWithConfig meta err:" <> error_text e))
  with_meta_account address (ok a) =
      if length a.bytes == 0
      then record { info = some empty_info; error = none }
      else with_metadata address (web.metadata a.bytes)

  abbrev pub with_meta_key : String → Result String → Got
  with_meta_key address (err e) =
      failed_with (some empty_info) (Error.other ("GetTokenMetaPubkey err:" <> error_text e))
  with_meta_key address (ok key) = with_meta_account address (web.account key)

  abbrev pub with_mint : String → Option Error → Got
  with_mint address (some e) =
      failed_with none (about "GetTokenInfo:MintAccountFromData err:" e address)
  with_mint address none = with_meta_key address (web.metadata_key address)

  abbrev pub with_mint_account : String → Result Account → Option Got
  with_mint_account address (err e) =
      some (failed_with none (about "GetAccountInfoWithConfig token err:" e address))
  with_mint_account address (ok a) =
      if length a.bytes == 0
      then some (
          failed_with none (
            about "GetTokenInfo:GetAccountInfoWithConfig token data is nil, err:"
              (Error.other "<nil>") (web.text_literal address)))
      else if ltb (length a.bytes) 82
      then none
      else some (with_mint address (web.mint_error (take 82 a.bytes)))

  unfoldable pub get_token_info : String → Option Got
  get_token_info address = with_mint_account address (web.account address)

  -- The loop of `GetToken2022Info` over the extensions of the mint.
  read_extensions : String → List Extension → TokenInfo → Got
  read_extensions address [] i = record { info = some i; error = none }
  read_extensions address (x ∷ xs) i =
      if str_eq x.extension "tokenMetadata"
      then elim (read_uri web true address x.uri (record i { name = x.name; symbol = x.symbol })) [
        | Reading.goes_on i' ↦ read_extensions address xs i'
        | Reading.returned g ↦ g
      ]
      else read_extensions address xs i

  abbrev pub with_extensions : String → Result (Option (List Extension)) → Option Got
  unfolding read_extensions
  with_extensions address (err e) =
      some (failed_with none (about "GetToken2022Info:Byte2Struct err:" e address))
  with_extensions address (ok none) = none
  with_extensions address (ok (some xs)) = some (read_extensions address xs empty_info)

  abbrev pub with_json : String → Result String → Option Got
  unfolding read_extensions
  with_json address (err e) =
      some (failed_with none (about "GetToken2022Info:GetAccountInfoWithOpts token err:" e address))
  with_json address (ok json) =
      if str_eq json ""
      then some (
          failed_with none (
            about "GetToken2022Info:GetAccountInfoWithOpts token data is nil, err:"
              (Error.other "<nil>") (web.key_literal address)))
      else with_extensions address (web.mint_response json)

  -- `GetToken2022Info` of a text, which panics if it is no key.
  unfoldable pub get_token2022_info : String → Option Got
  unfolding read_extensions
  get_token2022_info address =
      if web.is_key address then with_json address (web.parsed_account address) else none
