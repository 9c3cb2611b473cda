-- ===== src/PumpSdk/Curve/Roundtrip.antt =====
-- What is read of the account of a bonding curve that has its creator.
use greet.Base.{
  ℕ, zero, suc, ◌+◌, ◌<◌, ◌^◌, ltb, ◌≡◌, refl, ap, ◌∙◌, String, false, if_false, List, [], ◌∷◌,
  ◌++◌, take, length, length-append, some, ok, arith,
}
use greet.Base.Bytes.{uint64_of, le_bytes, uint64_of-le_bytes}
use greet.PumpSdk.Node.{PumpNode}
use greet.PumpSdk.Curve.{decode_curve, decode_account, fetch_bonding_curve}
use greet.PumpSdk.Creator.{creator_of_curve, curve_discriminator}

-- `BondingCurve` of pkg/pumpfun/pump/latest_idl.json: the discriminator, five numbers, a flag, the
-- creator, and after it whatever a later version adds, such as `is_mayhem_mode`.
abbrev pub curve_bytes : ℕ → ℕ → ℕ → ℕ → ℕ → ℕ → List ℕ → List ℕ → List ℕ
curve_bytes virtual_token virtual_sol real_token real_sol supply complete creator more =
    curve_discriminator
    ++ (le_bytes 8 virtual_token
        ++ (le_bytes 8 virtual_sol
            ++ (le_bytes 8 real_token
                ++ (le_bytes 8 real_sol ++ (le_bytes 8 supply ++ (complete ∷ (creator ++ more)))))))

take-length : {A : Type 0} (xs ys : List A) (n : ℕ) → length xs ≡ n → take n (xs ++ ys) ≡ xs
take-length [] ys zero h = refl
take-length [] ys (suc n) h = absurd (omega (arith, h))
take-length (x ∷ xs) ys zero h = absurd (omega (arith, h))
take-length (x ∷ xs) ys (suc n) h = ap (λ zs. x ∷ zs) (take-length xs ys n (omega (arith, h)))

module _ (vt vs rt rs supply complete : ℕ) (creator more : List ℕ) where
  abbrev bytes : List ℕ
  bytes = curve_bytes vt vs rt rs supply complete creator more

  abbrev after_reserves : List ℕ
  after_reserves =
      le_bytes 8 rt ++ (le_bytes 8 rs ++ (le_bytes 8 supply ++ (complete ∷ (creator ++ more))))

  decode_curve-curve_bytes :
      vt < 2 ^ 64
      → vs < 2 ^ 64
      → decode_curve bytes
        ≡ ok (record {
          real_token_reserves = uint64_of curve_discriminator;
          virtual_token_reserves = vt;
          virtual_sol_reserves = vs;
        })
  unfolding decode_curve
  decode_curve-curve_bytes small_vt small_vs =
      let long : ltb (length bytes) 24 ≡ false = ground arith in
      if_false _ _ long
      ∙ ap
          (λ v. ok (record {
            real_token_reserves = uint64_of curve_discriminator;
            virtual_token_reserves = v;
            virtual_sol_reserves = uint64_of (le_bytes 8 vs ++ after_reserves);
          }))
          (uint64_of-le_bytes vt (le_bytes 8 vs ++ after_reserves) small_vt)
      ∙ ap
          (λ v. ok (record {
            real_token_reserves = uint64_of curve_discriminator;
            virtual_token_reserves = vt;
            virtual_sol_reserves = v;
          }))
          (uint64_of-le_bytes vs after_reserves small_vs)

  creator_of_curve-curve_bytes :
      (node : PumpNode)
      → length creator ≡ 32
      → creator_of_curve node bytes ≡ ok (node.key_of_bytes creator)
  unfolding creator_of_curve
  creator_of_curve-curve_bytes node whole =
      let long : ltb (length bytes) 8 ≡ false = ground arith in
      let more_bytes : length (creator ++ more) ≡ 32 + length more =
        length-append creator more ∙ ap (λ n. n + length more) whole in
      let whole_account : ltb (length bytes) 81 ≡ false = ground arith in
      if_false _ _ long
      ∙ if_false _ _ whole_account
      ∙ ap (λ c. ok (node.key_of_bytes c)) (take-length creator more 32 whole)

-- Of an account that holds the discriminator of a bonding curve, five numbers, a flag and the 32
-- bytes of a creator, and possibly more after them, the virtual reserves and the creator are read
-- as they are, and the real token reserves as the number of the discriminator, whatever they are.
pub fetch_bonding_curve_roundtrip :
    (node : PumpNode) (key : String) (vt vs rt rs supply complete : ℕ) (creator more : List ℕ)
    → vt < 2 ^ 64
    → vs < 2 ^ 64
    → length creator ≡ 32
    → node.account key ≡ ok (some (curve_bytes vt vs rt rs supply complete creator more))
    → (fetch_bonding_curve node key
        ≡ ok (record {
          real_token_reserves = uint64_of curve_discriminator;
          virtual_token_reserves = vt;
          virtual_sol_reserves = vs;
        }))
      × (creator_of_curve node (curve_bytes vt vs rt rs supply complete creator more)
          ≡ ok (node.key_of_bytes creator))
unfolding fetch_bonding_curve
fetch_bonding_curve_roundtrip node key vt vs rt rs supply complete creator more small_vt small_vs
      whole account =
    (
      ap decode_account account
          ∙ decode_curve-curve_bytes vt vs rt rs supply complete creator more small_vt small_vs,
      creator_of_curve-curve_bytes vt vs rt rs supply complete creator more node whole,
    )
