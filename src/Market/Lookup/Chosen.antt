-- ===== src/Market/Lookup/Chosen.antt =====
-- What `FindOneByChainIdTokenAddress` promises, and that it does so in whatever order the map of
-- categories is read.
use mathlib.Core.List.{Permᴰ}
use mathlib.Core.Path.{subst}
use greet.Base.{
  ℕ, ◌≡◌, refl, sym, ap, ◌∙◌, ◌⊎◌, inl, inr, String, str_eq, true, false, not, Bool-cases, List, [],
  ◌∷◌, map, filter, All-at, Any-All, In, In-filter, filter-In, In-map, map-In, ok, err, Floats,
  Ordered,
}
use greet.Pairs.Types.{PairRow}
use greet.Market.Lookup.{
  Category, category_map, is_asked, noting_found_error, no_pair, no_top, top_of, top_of_category,
  contract_result, top_but_pump, choose_pair, find_one_by_chain_id_token_address,
}
use greet.Market.Lookup.Liquidity.{BestOf, top_of-BestOf, not_pump, top_but_pump-filter}
use greet.Market.Lookup.Categories.{CategoryOf, Holds, Grouped, Grouped-perm, categories-Grouped}

abbrev pub Named : {F : Type 0} → PairRow F → Type 0
Named p = str_eq p.name "" ≡ false

abbrev pub NotPump : {F : Type 0} → PairRow F → Type 0
NotPump p = not_pump p ≡ true

module _ (f : Floats) where
  open f use {F}

  -- The best pair of a kind among the rows: one of them with some liquidity, or none at all, and no
  -- row of the kind has more.
  pub record BestAmong (K : PairRow F → Type 0) (rows : List (PairRow F)) (r : PairRow F)
      : Type 0 where
    pub source : (In r rows × K r × (f.lt_f f.zero_f r.liquidity ≡ true)) ⊎ (r ≡ no_pair f)
    pub above : (q : PairRow F) → In q rows → K q → f.lt_f r.liquidity q.liquidity ≡ false

  -- The choice for the rows of a token.
  pub data Chosen (rows : List (PairRow F)) (r : PairRow F) : Type 0 where
    nothing_named :
        ((q : PairRow F) → In q rows → str_eq q.name "" ≡ true) → r ≡ no_pair f → Chosen rows r
    one_name :
        (p : PairRow F)
        → In p rows
        → Named p
        → ((q : PairRow F) → In q rows → Named q → q.name ≡ p.name)
        → BestAmong Named rows r
        → Chosen rows r
    several_names :
        (p q : PairRow F)
        → In p rows
        → Named p
        → In q rows
        → Named q
        → str_eq p.name q.name ≡ false
        → BestAmong (λ q. Named q × NotPump q) rows r
        → Chosen rows r

  module _ (o : Ordered f) (rows : List (PairRow F)) (cs : List (Category F))
      (g : Grouped (λ q. In q rows) cs) where
    -- A row with a name stands in one of the categories.
    category_of :
        (q : PairRow F)
        → In q rows
        → Named q
        → (c : Category F) × CategoryOf (λ q. In q rows) c × Holds q c × In c cs
    category_of q m named = Any-All _ (Holds q) cs g.groups (g.covers q m named)

    best_of : (c : Category F) → BestOf f o c.pairs (top_of_category f c)
    unfolding top_of
    best_of c = top_of-BestOf f o c.pairs

    member_row :
        (c : Category F) (q : PairRow F)
        → CategoryOf (λ q. In q rows) c
        → In q c.pairs
        → (q.name ≡ c.name) × In q rows
    member_row c q k m = All-at (λ q. (q.name ≡ c.name) × In q rows) c.pairs k.own m

    kept_row :
        (c : Category F) (q : PairRow F)
        → CategoryOf (λ q. In q rows) c
        → In q c.pairs
        → In q rows × Named q
    kept_row c q k m =
        let (name, there) = member_row c q k m in (there, ap (λ n. str_eq n "") name ∙ k.named)

    -- The best pair of a category is none of PumpFun, if its name is not.
    best-NotPump :
        (c : Category F) (q : PairRow F)
        → CategoryOf (λ q. In q rows) c
        → q.name ≡ c.name
        → NotPump q
        → NotPump (top_of_category f c)
    unfolding top_of
    best-NotPump c q k name other = elim (best_of c).source [
      | inl (m, _) ↦
          let (name', _) = member_row c (top_of_category f c) k m in
          ap (λ n. not (str_eq n "PumpFun")) (name' ∙ sym name) ∙ other
      | inr nothing ↦ ap (λ (p : PairRow F). not_pump p) nothing
    ]

    abbrev bests : List (PairRow F)
    unfolding top_of
    bests = map (top_of_category f) cs

    abbrev chosen : PairRow F
    unfolding top_of
    chosen = (top_of f (no_top f) (filter not_pump bests)).pair

    source_of :
        (r : PairRow F)
        → In r (filter not_pump bests)
        → f.lt_f f.zero_f r.liquidity ≡ true
        → (In r rows × (Named r × NotPump r) × (f.lt_f f.zero_f r.liquidity ≡ true))
          ⊎ (r ≡ no_pair f)
    unfolding top_of
    source_of r m liquid =
        let (m', other) = filter-In not_pump bests r m in
        let (c, k, best, _) = Any-All _ _ cs g.groups (map-In (top_of_category f) cs r m') in
        elim (best_of c).source [
          | inl (there, _) ↦
              let (m'', named) = kept_row c r k (subst (λ p. In p c.pairs) best there) in
              inl (m'', (named, other), liquid)
          | inr nothing ↦ inr (sym best ∙ nothing)
        ]

    above_of :
        (q : PairRow F)
        → In q rows
        → Named q
        → NotPump q
        → f.lt_f chosen.liquidity q.liquidity ≡ false
    unfolding top_of
    above_of q m named other =
        let (c, k, (name, there), m') = category_of q m named in
        let best = top_of_category f c in
        let taken : In best (filter not_pump bests) =
          In-filter not_pump bests best (best-NotPump c q k name other)
            (In-map (top_of_category f) cs c m') in
        o.not_below_trans chosen.liquidity best.liquidity q.liquidity
          (All-at (λ p. f.lt_f chosen.liquidity p.liquidity ≡ false) (filter not_pump bests)
            (top_of-BestOf f o (filter not_pump bests)).above taken)
          (All-at (λ p. f.lt_f best.liquidity p.liquidity ≡ false) c.pairs (best_of c).above there)

    chosen-BestAmong : BestAmong (λ q. Named q × NotPump q) rows chosen
    unfolding top_of
    chosen-BestAmong =
        let h = top_of-BestOf f o (filter not_pump bests) in
        let chosen_source : (x : (In chosen (filter not_pump bests)
                × (f.lt_f f.zero_f chosen.liquidity ≡ true))
              ⊎ (chosen ≡ no_pair f))
            → (In chosen rows
                × (Named chosen × NotPump chosen)
                × (f.lt_f f.zero_f chosen.liquidity ≡ true))
              ⊎ (chosen ≡ no_pair f) =
          λ x. elim x [
            | inr nothing ↦ inr nothing
            | inl (m, some_liquidity) ↦ source_of chosen m some_liquidity
          ] in
        record { source = chosen_source h.source; above = λ q m kind. above_of q m kind.0 kind.1 }

  only-BestAmong :
      (o : Ordered f) (rows : List (PairRow F)) (c : Category F)
      → Grouped (λ q. In q rows) (c ∷ [])
      → BestAmong Named rows (top_of_category f c)
  unfolding top_of
  only-BestAmong o rows c g =
      let b = best_of o rows (c ∷ []) g c in
      record {
        source = elim b.source [
          | inl (m, liquid) ↦
              let (m', named) = kept_row o rows (c ∷ []) g c (top_of_category f c) g.groups.0 m in
              inl (m', named, liquid)
          | inr nothing ↦ inr nothing
        ];
        above = λ q m named. elim (g.covers q m named) [
          | inl (_, there) ↦
              All-at (λ p. f.lt_f (top_of_category f c).liquidity p.liquidity ≡ false) c.pairs
                b.above there
          | inr never ↦ absurd never
        ];
      }

  contract_result-Chosen :
      (o : Ordered f) (rows : List (PairRow F)) (cs : List (Category F))
      → Grouped (λ q. In q rows) cs
      → Chosen rows (contract_result f (map (top_of_category f) cs))
  unfolding top_of top_but_pump
  contract_result-Chosen o rows [] g =
      Chosen.nothing_named
        (λ q m. elim (Bool-cases (str_eq q.name "")) [
          | inl unnamed ↦ unnamed
          | inr named ↦ absurd (g.covers q m named)
        ])
        refl
  contract_result-Chosen o rows (c ∷ []) g =
      let (p, m) = g.groups.0.member in
      let (m', named) = kept_row o rows (c ∷ []) g c p g.groups.0 m in
      let (same, _) = member_row o rows (c ∷ []) g c p g.groups.0 m in
      Chosen.one_name p m' named
        (λ q n q_named. elim (g.covers q n q_named) [
          | inl (name, _) ↦ name ∙ sym same
          | inr never ↦ absurd never
        ])
        (only-BestAmong o rows c g)
  contract_result-Chosen o rows (c ∷ d ∷ cs) g =
      let (p, m) = g.groups.0.member in
      let (p_in, p_named) = kept_row o rows (c ∷ d ∷ cs) g c p g.groups.0 m in
      let (p_name, _) = member_row o rows (c ∷ d ∷ cs) g c p g.groups.0 m in
      let (q, n) = g.groups.1.0.member in
      let (q_in, q_named) = kept_row o rows (c ∷ d ∷ cs) g d q g.groups.1.0 n in
      let (q_name, _) = member_row o rows (c ∷ d ∷ cs) g d q g.groups.1.0 n in
      Chosen.several_names p q p_in p_named q_in q_named (cc (g.distinct.0.0)) (
        subst (BestAmong (λ q. Named q × NotPump q) rows)
          (sym (
            ap (λ t. t.pair)
              (top_but_pump-filter f o (no_top f) (map (top_of_category f) (c ∷ d ∷ cs)))))
          (chosen-BestAmong o rows (c ∷ d ∷ cs) g))

  choose_pair-Chosen :
      (o : Ordered f) (in_order : List (Category F) → List (Category F))
      → ((cs : List (Category F)) → Permᴰ cs (in_order cs))
      → (rows : List (PairRow F))
      → ((rows ≡ []) × (choose_pair f in_order rows ≡ err noting_found_error))
        ⊎ ((r : PairRow F) × (choose_pair f in_order rows ≡ ok r) × Chosen rows r)
  unfolding top_of top_but_pump category_map
  choose_pair-Chosen o in_order perm [] = inl (refl, refl)
  choose_pair-Chosen o in_order perm (p ∷ ps) = inr (
    contract_result f (map (top_of_category f) (in_order (category_map (p ∷ ps) []))),
    refl,
    contract_result-Chosen o (p ∷ ps) (in_order (category_map (p ∷ ps) [])) (
        Grouped-perm (λ q. In q (p ∷ ps)) (perm (category_map (p ∷ ps) []))
          (categories-Grouped (p ∷ ps))),
  )

  -- TODO
  pub find_one_by_chain_id_token_address-Chosen :
      (o : Ordered f) (in_order : List (Category F) → List (Category F))
      → ((cs : List (Category F)) → Permᴰ cs (in_order cs))
      → (chain_id : ℕ) (token_address : String) (table : List (PairRow F))
      → let rows = filter (is_asked chain_id token_address) table in
        let result =
          find_one_by_chain_id_token_address f in_order chain_id token_address (ok table) in
        ((rows ≡ []) × (result ≡ err noting_found_error))
        ⊎ ((r : PairRow F) × (result ≡ ok r) × Chosen rows r)
  unfolding find_one_by_chain_id_token_address
  find_one_by_chain_id_token_address-Chosen o in_order perm chain_id token_address table =
      choose_pair-Chosen o in_order perm (filter (is_asked chain_id token_address) table)
