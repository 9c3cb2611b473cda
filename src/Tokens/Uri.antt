-- ===== src/Tokens/Uri.antt =====
-- block/token.go: `isURLAccessible`, `replaceWithPublicGateway`, and the reading of the document
-- behind an address of metadata, in which `GetTokenInfo` and `GetToken2022Info` differ by one
-- error.
pub mod Gateway
use Prim.Native.Char.{code}
use Prim.Native.String.{◌++◌ as ◌<>◌}
use greet.Base.{
  ℕ, ◌==◌, String, str_eq, Bool, true, false, if◌then◌else◌, Option, none, some, and_then, Error,
  error_text, Result, ok, err,
}
use greet.Base.Text.{codes, contains, has_prefix}
use greet.Tokens.Types.{TokenUriData, no_uri_data, TokenInfo, Answer, Web}

-- `isURLAccessible`, of the answer to the GET.
abbrev pub is_url_accessible : Result ℕ → Bool
is_url_accessible (err e) = false
is_url_accessible (ok status) = status == 200

-- What follows a text, if it stands at the front.
pub strip_text : String → String → Option String
strip_text String.[] s = some s
strip_text (String.◌∷◌ k p) String.[] = none
strip_text (String.◌∷◌ k p) (String.◌∷◌ c s) = if code k == code c then strip_text p s else none

-- `[^/]+`, which goes on to the first slash.
pub skip_host : String → String
skip_host String.[] = String.[]
skip_host (String.◌∷◌ c s) = if code c == b'/' then String.◌∷◌ c s else skip_host s

pub after_host : String → Option String
unfolding skip_host
after_host String.[] = none
after_host (String.◌∷◌ c s) = if code c == b'/' then none else some (skip_host s)

-- `https?://`
abbrev pub after_s : String → Option String → Option String
after_s r none = strip_text "://" r
after_s r (some r') = strip_text "://" r'

-- `^https?://[^/]+/ipfs/`: what follows it in a text that it matches.
pub after_ipfs : String → Option String
unfolding strip_text after_host
after_ipfs uri =
    and_then (strip_text "http" uri) λ r.
      and_then (after_s r (strip_text "s" r)) λ u. and_then (after_host u) (strip_text "/ipfs/")

-- A text before another.
pub before : String → String → String
before String.[] s = s
before (String.◌∷◌ c p) s = String.◌∷◌ c (before p s)

abbrev pub or_uri : String → String → Option String → String
or_uri uri gateway none = uri
or_uri uri gateway (some rest) = before gateway rest

-- `replaceWithPublicGateway`
unfoldable pub replace_with_public_gateway : String → String → String
unfolding after_ipfs before
replace_with_public_gateway uri gateway = or_uri uri gateway (after_ipfs uri)

abbrev pub public_gateway : String
public_gateway = "https://ipfs.io/ipfs/"

abbrev pub or_text : String → String → String
or_text a b = if str_eq a "" then b else a

-- The links of the document, else those of its extensions.
abbrev pub with_fallbacks : TokenUriData → TokenUriData
with_fallbacks u = record u {
  website = or_text u.website u.extension_website;
  telegram = or_text u.telegram u.extension_telegram;
  twitter = or_text u.twitter u.extension_twitter;
}

-- The two results of a Go function: a pointer and an error.
pub record Got : Type 0 where
  pub info : Option TokenInfo
  pub error : Option Error

-- The function goes on with the token, or returns.
pub data Reading : Type 0 where
  goes_on : TokenInfo → Reading
  returned : Got → Reading

abbrev pub returns : TokenInfo → Option Error → Reading
returns i e = Reading.returned (record { info = some i; error = e })

abbrev pub starts_with : String → String → Bool
starts_with s p = has_prefix (codes s) (codes p)

-- The error that only `GetToken2022Info` returns, of a document of no known type.
abbrev pub decode_error : Bool → String → String → Error → Option Error
decode_error strict uri address e =
    if strict
    then some (
        Error.other (
          "GetToken2022Info error: "
          <> error_text e
          <> ", url: "
          <> uri
          <> ", token address: "
          <> address))
    else none

abbrev pub with_document : TokenInfo → Option Error → Result TokenUriData → Reading
with_document i e (ok u) = Reading.goes_on (record i { uri = with_fallbacks u })
with_document i e (err _) = returns i e

module _ (web : Web) (strict : Bool) (address : String) where
  abbrev pub of_page : String → TokenInfo → String → String → Reading
  of_page uri i content_type body =
      if contains body "Account has been disabled."
      then returns i none
      else if starts_with content_type "application/json"
      then with_document i none (web.uri_data body)
      else if starts_with content_type "image/"
      then Reading.goes_on (record i { uri = record i.uri { image = uri } })
      else elim (web.uri_data body) [
        | ok u ↦ Reading.goes_on (record i { uri = with_fallbacks u })
        | err e ↦ returns i (decode_error strict uri address e)
      ]

  abbrev pub of_answer : String → TokenInfo → Answer → Reading
  of_answer uri i (Answer.bad_request e) =
      returns i (some (Error.other ("http.NewRequest err:" <> error_text e)))
  of_answer uri i Answer.no_response = returns i none
  of_answer uri i Answer.unreadable = returns i none
  of_answer uri i (Answer.page content_type body) = of_page uri i content_type body

  -- The address that is read: that of the public gateway where the first cannot be read.
  abbrev pub readable_uri : String → String
  readable_uri uri =
      if is_url_accessible (web.status uri)
      then uri
      else replace_with_public_gateway uri public_gateway

  unfoldable pub read_uri : String → TokenInfo → Reading
  unfolding replace_with_public_gateway
  read_uri uri i =
      if str_eq uri ""
      then Reading.goes_on i
      else of_answer (readable_uri uri) i (web.fetch (readable_uri uri))
