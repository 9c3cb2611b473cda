-- ===== src/Tokens/Uri/Gateway.antt =====
-- The replacement of an IPFS gateway.
use Prim.Native.Char.{code}
use greet.Base.{
  String, ◌==◌, ◌≡◌, refl, ap, ◌∙◌, inl, inr, Bool, true, false, some, Option-cases, and_then,
  if_false,
}
use greet.Tokens.Uri.{
  strip_text, skip_host, after_host, after_ipfs, before, or_uri, replace_with_public_gateway,
  public_gateway,
}

after_ipfs-gateway : (rest : String) → after_ipfs (before public_gateway rest) ≡ some rest
unfolding after_ipfs before
after_ipfs-gateway rest = refl

-- A text with no slash.
abbrev pub IsHost : String → Type 0
IsHost String.[] = Unit
IsHost (String.◌∷◌ c s) = ((code c == b'/') ≡ false) × IsHost s

abbrev pub NotEmpty : String → Type 0
NotEmpty String.[] = ⊥
NotEmpty (String.◌∷◌ c s) = Unit

skip_host-before :
    (host rest : String)
    → IsHost host
    → skip_host (before host (before "/ipfs/" rest)) ≡ before "/ipfs/" rest
unfolding skip_host before
skip_host-before String.[] rest h = refl
skip_host-before (String.◌∷◌ c host) rest (differ, h) =
    if_false _ _ differ ∙ skip_host-before host rest h

after_host-before :
    (host rest : String)
    → NotEmpty host
    → IsHost host
    → after_host (before host (before "/ipfs/" rest)) ≡ some (before "/ipfs/" rest)
unfolding after_host before
after_host-before String.[] rest some_host h = absurd some_host
after_host-before (String.◌∷◌ c host) rest some_host (differ, h) =
    if_false _ _ differ ∙ ap some (skip_host-before host rest h)

abbrev pub scheme : Bool → String
scheme true = "https://"
scheme false = "http://"

after_ipfs-before :
    (secure : Bool) (host rest : String)
    → NotEmpty host
    → IsHost host
    → after_ipfs (before (scheme secure) (before host (before "/ipfs/" rest))) ≡ some rest
unfolding after_ipfs before
after_ipfs-before true host rest some_host h =
    ap (λ o. and_then o (strip_text "/ipfs/")) (after_host-before host rest some_host h)
after_ipfs-before false host rest some_host h =
    ap (λ o. and_then o (strip_text "/ipfs/")) (after_host-before host rest some_host h)

replace_with_public_gateway-twice :
    (uri : String)
    → replace_with_public_gateway (replace_with_public_gateway uri public_gateway) public_gateway
      ≡ replace_with_public_gateway uri public_gateway
unfolding replace_with_public_gateway
replace_with_public_gateway-twice uri = elim (Option-cases (after_ipfs uri)) [
  | inl other ↦ rw other (ap (or_uri uri public_gateway) other)
  | inr (rest, ipfs) ↦
      rw ipfs (ap (or_uri (before public_gateway rest) public_gateway) (after_ipfs-gateway rest))
]

-- An address of an IPFS gateway, http or https, with any host and path, becomes the address of the
-- same path at the public gateway, and a second replacement of any address changes nothing.
pub replace_with_public_gateway-ipfs :
    (secure : Bool) (host rest other : String)
    → NotEmpty host
    → IsHost host
    → (replace_with_public_gateway
          (before (scheme secure) (before host (before "/ipfs/" rest)))
          public_gateway
        ≡ before public_gateway rest)
      × (replace_with_public_gateway
            (replace_with_public_gateway other public_gateway)
            public_gateway
          ≡ replace_with_public_gateway other public_gateway)
unfolding replace_with_public_gateway
replace_with_public_gateway-ipfs secure host rest other some_host h = (
  ap (or_uri _ public_gateway) (after_ipfs-before secure host rest some_host h),
  replace_with_public_gateway-twice other,
)
