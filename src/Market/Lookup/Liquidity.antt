-- ===== src/Market/Lookup/Liquidity.antt =====
-- The loop that looks for the largest liquidity.
use mathlib.Core.Path.{subst}
use greet.Base.{
  ◌≡◌, refl, sym, ap, ◌∙◌, ◌⊎◌, inl, inr, Bool, true, false, Bool-cases, if_true, if_false, List,
  [], ◌∷◌, filter, All, All-map, In, Any, not, str_eq, Floats, Ordered,
}
use greet.Pairs.Types.{PairRow}
use greet.Market.Lookup.{Top, no_pair, no_top, higher, top_of, top_but_pump}

abbrev pub not_pump : {F : Type 0} → PairRow F → Bool
not_pump p = not (str_eq p.name "PumpFun")

module _ (f : Floats) (o : Ordered f) where
  open f use {F}

  -- What a loop from t over the pairs ends with.
  pub record Highest (t : Top F) (ps : List (PairRow F)) (t' : Top F) : Type 0 where
    pub source :
        (t' ≡ t)
        ⊎ (Any (λ p. p ≡ t'.pair) ps × (t'.max ≡ t'.pair.liquidity) × (f.lt_f t.max t'.max ≡ true))
    pub above : All (λ p. f.lt_f t'.max p.liquidity ≡ false) ps
    pub grows : (x : F) → f.lt_f t.max x ≡ false → f.lt_f t'.max x ≡ false

  raised :
      (t : Top F) (p : PairRow F) (ps : List (PairRow F)) (t' : Top F)
      → f.lt_f t.max p.liquidity ≡ true
      → Highest (record { max = p.liquidity; pair = p }) ps t'
      → Highest t (p ∷ ps) t'
  raised t p ps t' more h =
      let grown : (x : F) → f.lt_f t.max x ≡ false → f.lt_f p.liquidity x ≡ false = λ x below.
        elim (Bool-cases (f.lt_f p.liquidity x)) [
          | inl high ↦ absurd (cc (o.below_trans t.max p.liquidity x more high))
          | inr low ↦ low
        ] in
      record {
        source = inr (elim h.source [
          | inl same ↦ (inl (sym (ap (λ u. u.pair) same)), cc, cc)
          | inr (there, top, higher_still) ↦
              (inr there, top, o.below_trans t.max p.liquidity t'.max more higher_still)
        ]);
        above = (h.grows p.liquidity (o.not_below_self p.liquidity), h.above);
        grows = λ x below. h.grows x (grown x below);
      }

  passed :
      (t : Top F) (p : PairRow F) (ps : List (PairRow F)) (t' : Top F)
      → f.lt_f t.max p.liquidity ≡ false
      → Highest t ps t'
      → Highest t (p ∷ ps) t'
  passed t p ps t' not_more h = record {
    source = elim h.source [
      | inl same ↦ inl same
      | inr (there, top, more) ↦ inr (inr there, top, more)
    ];
    above = (h.grows p.liquidity not_more, h.above);
    grows = h.grows;
  }

  pub top_of-Highest : (t : Top F) (ps : List (PairRow F)) → Highest t ps (top_of f t ps)
  unfolding top_of
  top_of-Highest t [] = record { source = inl refl; above = tt; grows = λ x h. h }
  top_of-Highest t (p ∷ ps) = elim (Bool-cases (f.lt_f t.max p.liquidity)) [
    | inl more ↦
        let u : Top F = record { max = p.liquidity; pair = p } in
        subst (λ v. Highest t (p ∷ ps) (top_of f v ps)) (sym (if_true u t more))
          (raised t p ps (top_of f u ps) more (top_of-Highest u ps))
    | inr not_more ↦
        subst (λ v. Highest t (p ∷ ps) (top_of f v ps))
          (sym (if_false (record { max = p.liquidity; pair = p }) t not_more))
          (passed t p ps (top_of f t ps) not_more (top_of-Highest t ps))
  ]

  -- The best pair of a list: one of them with some liquidity, or none at all, and no pair of the
  -- list has more.
  pub record BestOf (ps : List (PairRow F)) (p : PairRow F) : Type 0 where
    pub source : (In p ps × (f.lt_f f.zero_f p.liquidity ≡ true)) ⊎ (p ≡ no_pair f)
    pub above : All (λ q. f.lt_f p.liquidity q.liquidity ≡ false) ps

  pub top_of-BestOf : (ps : List (PairRow F)) → BestOf ps (top_of f (no_top f) ps).pair
  top_of-BestOf ps =
      let h = top_of-Highest (no_top f) ps in
      let t = top_of f (no_top f) ps in
      elim h.source [
        | inl same ↦ record {
          source = inr (ap (λ t. t.pair) same);
          above =
              All-map _ _ ps
                (λ q below.
                  sym (
                    ap (λ t. f.lt_f t.max q.liquidity) same
                    ∙ sym (ap (λ t. f.lt_f t.pair.liquidity q.liquidity) same))
                  ∙ below)
                h.above;
        }
        | inr (there, top, some_more) ↦ record {
          source = inl (there, sym (ap (f.lt_f f.zero_f) top) ∙ some_more);
          above =
              All-map _ _ ps (λ q below. sym (ap (λ m. f.lt_f m q.liquidity) top) ∙ below) h.above;
        }
      ]

  -- The loop that passes over PumpFun is the loop over the others.
  pub top_but_pump-filter :
      (t : Top F) (ps : List (PairRow F)) → top_but_pump f t ps ≡ top_of f t (filter not_pump ps)
  unfolding top_of top_but_pump
  top_but_pump-filter t [] = refl
  top_but_pump-filter t (p ∷ ps) = elim (Bool-cases (str_eq p.name "PumpFun")) [
    | inl pump ↦ rw pump (top_but_pump-filter t ps)
    | inr other ↦ rw other (top_but_pump-filter (higher f t p) ps)
  ]
