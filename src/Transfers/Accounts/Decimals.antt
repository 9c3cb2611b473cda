-- ===== src/Transfers/Accounts/Decimals.antt =====
-- The decimals of the token accounts after `FillTokenAccountMap`.
use greet.Base.{
  ℕ, ◌==◌, ◌≡◌, refl, ap, ◌∙◌, ◌⊎◌, inl, inr, String, true, false, Bool-cases, if◌then◌else◌,
  if_true, if_false, str_eq, eq_iff, [], ◌∷◌, All, some, arith,
}
use greet.Transfers.Types.{TokenAccount, Map, lookup, set}
use greet.Transfers.Accounts.{Accounts, decimal_map, with_decimals, fill_decimals}

-- All accounts of the mint that have decimals have d of them.
abbrev pub Agrees : String → ℕ → String × TokenAccount → Type 0
Agrees mint d (k, a) = a.token_address ≡ mint → (a.token_decimal ≡ 0) ⊎ (a.token_decimal ≡ d)

-- Some account of the mint has them.
pub data Knows (mint : String) (d : ℕ) : Accounts → Type 0 where
  here :
      {k : String} {a : TokenAccount} {m : Accounts}
      → a.token_address ≡ mint
      → a.token_decimal ≡ d
      → Knows mint d ((k, a) ∷ m)
  there : {x : String × TokenAccount} {m : Accounts} → Knows mint d m → Knows mint d (x ∷ m)

str_eq_refl : (s : String) → str_eq s s ≡ true
str_eq_refl s = (eq_iff s s).1 refl

module _ {V : Type 0} where
  lookup-set : (k : String) (v : V) (m : Map V) → lookup (set k v m) k ≡ some v
  lookup-set k v [] = rw (str_eq_refl k) refl
  lookup-set k v ((k', v') ∷ m) = elim (Bool-cases (str_eq k' k)) [
    | inl same ↦ rw same (rw same refl)
    | inr differ ↦ rw differ (rw differ (lookup-set k v m))
  ]

  lookup-set_other :
      (k k' : String) (v : V) (m : Map V)
      → str_eq k k' ≡ false
      → lookup (set k v m) k' ≡ lookup m k'
  lookup-set_other k k' v [] h = rw h refl
  lookup-set_other k k' v ((k2, v2) ∷ m) h = elim (Bool-cases (str_eq k2 k)) [
    | inl same ↦
        let e = (eq_iff k2 k).0 same in let h2 : str_eq k2 k' ≡ false = cc in rw same (rw h2 refl)
    | inr differ ↦ elim (Bool-cases (str_eq k2 k')) [
      | inl found ↦ rw differ (rw found refl)
      | inr next ↦ rw differ (rw next (lookup-set_other k k' v m h))
    ]
  ]

module _ (mint : String) (d : ℕ) where
  abbrev see : String × TokenAccount → Map ℕ → Map ℕ
  see (k, a) ds = if a.token_decimal == 0 then ds else set a.token_address a.token_decimal ds

  see_own :
      (k : String) (a : TokenAccount) (ds : Map ℕ)
      → a.token_address ≡ mint
      → a.token_decimal ≡ d
      → (a.token_decimal == 0) ≡ false
      → lookup (see (k, a) ds) mint ≡ some d
  see_own k a ds e q known =
      ap (λ x. lookup x mint) (if_false _ _ known)
      ∙ (ap (λ x. lookup (set x a.token_decimal ds) mint) e
          ∙ (lookup-set mint a.token_decimal ds ∙ ap some q))

  see_keeps :
      (x : String × TokenAccount) (ds : Map ℕ)
      → Agrees mint d x
      → lookup ds mint ≡ some d
      → lookup (see x ds) mint ≡ some d
  see_keeps (k, a) ds agrees h = elim (Bool-cases (a.token_decimal == 0)) [
    | inl none_yet ↦ ap (λ x. lookup x mint) (if_true _ _ none_yet) ∙ h
    | inr known ↦ elim (Bool-cases (str_eq a.token_address mint)) [
      | inr other ↦
          ap (λ x. lookup x mint) (if_false _ _ known)
          ∙ (lookup-set_other a.token_address mint a.token_decimal ds other ∙ h)
      | inl same ↦
          let e = (eq_iff a.token_address mint).0 same in
          elim (agrees e) [ inl z ↦ absurd (ground arith) | inr q ↦ see_own k a ds e q known ]
    ]
  ]

  decimal_map_keeps :
      (m : Accounts) (ds : Map ℕ)
      → All (Agrees mint d) m
      → lookup ds mint ≡ some d
      → lookup (decimal_map m ds) mint ≡ some d
  decimal_map_keeps [] ds agrees h = h
  decimal_map_keeps ((k, a) ∷ m) ds (first, rest) h =
      decimal_map_keeps m (see (k, a) ds) rest (see_keeps (k, a) ds first h)

  decimal_map-Knows :
      (m : Accounts) (ds : Map ℕ)
      → (d == 0) ≡ false
      → Knows mint d m
      → All (Agrees mint d) m
      → lookup (decimal_map m ds) mint ≡ some d
  decimal_map-Knows [] ds positive h agrees = elim h [ ]
  decimal_map-Knows ((k, a) ∷ m) ds positive (Knows.here e q) (first, rest) =
      decimal_map_keeps m (see (k, a) ds) rest (see_own k a ds e q (ap (λ n. n == 0) q ∙ positive))
  decimal_map-Knows ((k, a) ∷ m) ds positive (Knows.there later) (first, rest) =
      decimal_map-Knows m (see (k, a) ds) positive later rest

  -- The account, if it is one of the mint, has d decimals.
  abbrev pub HasDecimals : String × TokenAccount → Type 0
  HasDecimals (k, a) = a.token_address ≡ mint → a.token_decimal ≡ d

  with_decimals-HasDecimals :
      (m : Accounts) (ds : Map ℕ)
      → All (Agrees mint d) m
      → lookup ds mint ≡ some d
      → All HasDecimals (with_decimals ds m)
  with_decimals-HasDecimals [] ds agrees h = tt
  with_decimals-HasDecimals ((k, a) ∷ m) ds (first, rest) h = (
    λ e. elim (Bool-cases (a.token_decimal == 0)) [
      | inl none_yet ↦
          let e' : a.token_address ≡ mint = rw none_yet at e in rw none_yet (rw e' (rw h refl))
      | inr known ↦
          let e' : a.token_address ≡ mint = rw known at e in
          rw known (elim (first e') [ inl z ↦ absurd (ground arith) | inr q ↦ q ])
    ],
    with_decimals-HasDecimals m ds rest h,
  )

  -- Where the accounts of a mint that have decimals all have the same positive number of them, and
  -- one has, every account of the mint has that number at the end.
  pub fill_decimals-HasDecimals :
      (m : Accounts)
      → (d == 0) ≡ false
      → Knows mint d m
      → All (Agrees mint d) m
      → All HasDecimals (fill_decimals m)
  unfolding fill_decimals
  fill_decimals-HasDecimals m positive knows agrees =
      with_decimals-HasDecimals m (decimal_map m []) agrees
        (decimal_map-Knows m [] positive knows agrees)
