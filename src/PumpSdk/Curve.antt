-- ===== src/PumpSdk/Curve.antt =====
-- bonding-curve.go: `FetchBondingCurve`.
pub mod Roundtrip
use Prim.Native.String.{◌++◌ as ◌<>◌}
use greet.Base.{
  ℕ, ltb, String, if◌then◌else◌, List, drop, length, Option, none, some, Error, error_text, Result,
  ok, err,
}
use greet.Base.Bytes.{uint64_of}
use greet.PumpSdk.Node.{PumpNode}

pub record BondingCurveData : Type 0 where
  pub real_token_reserves : ℕ
  pub virtual_token_reserves : ℕ
  pub virtual_sol_reserves : ℕ

unfoldable pub decode_curve : List ℕ → Result BondingCurveData
decode_curve bytes =
    if ltb (length bytes) 24
    then err (Error.other "FBCD: insufficient data length")
    else ok (record {
      real_token_reserves = uint64_of bytes;
      virtual_token_reserves = uint64_of (drop 8 bytes);
      virtual_sol_reserves = uint64_of (drop 16 bytes);
    })

-- The data of an account; an account that is not there has none.
abbrev pub decode_account : Result (Option (List ℕ)) → Result BondingCurveData
unfolding decode_curve
decode_account (err e) = err (Error.other ("FBCD: failed to get account info: " <> error_text e))
decode_account (ok none) = err (Error.other "FBCD: failed to get account info: %!w(<nil>)")
decode_account (ok (some bytes)) = decode_curve bytes

unfoldable pub fetch_bonding_curve : PumpNode → String → Result BondingCurveData
unfolding decode_curve
fetch_bonding_curve node key = decode_account (node.account key)
