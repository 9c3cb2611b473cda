-- ===== src/Market/Lookup/Categories.antt =====
-- The map of categories holds each pair that has a name once, under its name.
use mathlib.Core.Path.{subst}
use greet.Base.{
  ◌≡◌, refl, sym, ap, ◌⊎◌, inl, inr, str_eq, eq_iff, true, false, Bool-cases, if◌then◌else◌,
  if_true, if_false, List, [], ◌∷◌, ◌++◌, All, All-map, All-append, Any, Any-append, All-perm,
  Any-perm, In,
}
use mathlib.Core.List.{Permᴰ}
use greet.Pairs.Types.{PairRow}
use greet.Market.Lookup.{Category, append_to, category_map}

module _ {F : Type 0} where
  -- A category of pairs with a property.
  pub record CategoryOf (D : PairRow F → Type 0) (c : Category F) : Type 0 where
    pub named : str_eq c.name "" ≡ false
    pub own : All (λ p. (p.name ≡ c.name) × D p) c.pairs
    pub member : (p : PairRow F) × In p c.pairs

  abbrev pub Holds : PairRow F → Category F → Type 0
  Holds p c = (p.name ≡ c.name) × In p c.pairs

  abbrev pub Other : Category F → Category F → Type 0
  Other c d = str_eq c.name d.name ≡ false

  abbrev pub Distinct : List (Category F) → Type 0
  Distinct [] = Unit
  Distinct (c ∷ cs) = All (Other c) cs × Distinct cs

  abbrev pub Or : PairRow F → (PairRow F → Type 0) → PairRow F → Type 0
  Or p D q = (p ≡ q) ⊎ D q

  CategoryOf-map :
      (D E : PairRow F → Type 0)
      → ((p : PairRow F) → D p → E p)
      → (c : Category F) → CategoryOf D c
      → CategoryOf E c
  CategoryOf-map D E h c k = record {
    named = k.named;
    own = All-map _ _ c.pairs (λ p x. (x.0, h p x.1)) k.own;
    member = k.member;
  }

  module _ (p : PairRow F) where
    first_category :
        (D : PairRow F → Type 0)
        → str_eq p.name "" ≡ false
        → CategoryOf (Or p D) (record { name = p.name; pairs = p ∷ [] })
    first_category D named = record {
      named = named;
      own = ((refl, inl refl), tt);
      member = (p, inl refl);
    }

    longer_category :
        (D : PairRow F → Type 0) (c : Category F)
        → c.name ≡ p.name
        → CategoryOf D c
        → CategoryOf (Or p D) (record c { pairs = c.pairs ++ (p ∷ []) })
    longer_category D c same k = record {
      named = k.named;
      own =
          All-append _ c.pairs (p ∷ []) (All-map _ _ c.pairs (λ q x. (x.0, inr x.1)) k.own)
            ((sym same, inl refl), tt);
      member = let (q, there) = k.member in (q, Any-append _ c.pairs (p ∷ []) (inl there));
    }

    append_to-groups :
        (D : PairRow F → Type 0) (cs : List (Category F))
        → str_eq p.name "" ≡ false
        → All (CategoryOf D) cs
        → All (CategoryOf (Or p D)) (append_to p cs)
    unfolding append_to
    append_to-groups D [] named groups = (first_category D named, tt)
    append_to-groups D (c ∷ cs) named (k, groups) = elim (Bool-cases (str_eq c.name p.name)) [
      | inl same ↦ rw same (
        longer_category D c ((eq_iff c.name p.name).0 same) k,
        All-map _ _ cs (CategoryOf-map D (Or p D) (λ q x. inr x)) groups,
      )
      | inr other ↦
          rw other
            (CategoryOf-map D (Or p D) (λ q x. inr x) c k, append_to-groups D cs named groups)
    ]

    append_to-Holds :
        (q : PairRow F) (cs : List (Category F)) → Any (Holds q) cs → Any (Holds q) (append_to p cs)
    unfolding append_to
    append_to-Holds q [] none_has = absurd none_has
    append_to-Holds q (c ∷ cs) has = elim (Bool-cases (str_eq c.name p.name)) [
      | inl same ↦ rw same (elim has [
        | inl (name, there) ↦ inl (name, Any-append _ c.pairs (p ∷ []) (inl there))
        | inr later ↦ inr later
      ])
      | inr other ↦
          rw other (elim has [ inl here ↦ inl here | inr later ↦ inr (append_to-Holds q cs later) ])
    ]

    append_to-Holds_self : (cs : List (Category F)) → Any (Holds p) (append_to p cs)
    unfolding append_to
    append_to-Holds_self [] = inl (refl, inl refl)
    append_to-Holds_self (c ∷ cs) = elim (Bool-cases (str_eq c.name p.name)) [
      | inl same ↦ rw same (
          inl (sym ((eq_iff c.name p.name).0 same), Any-append _ c.pairs (p ∷ []) (inr (inl refl))))
      | inr other ↦ rw other (inr (append_to-Holds_self cs))
    ]

    append_to-Other :
        (d : Category F) (cs : List (Category F))
        → str_eq d.name p.name ≡ false
        → All (Other d) cs
        → All (Other d) (append_to p cs)
    unfolding append_to
    append_to-Other d [] new others = (new, tt)
    append_to-Other d (c ∷ cs) new (o, others) = elim (Bool-cases (str_eq c.name p.name)) [
      | inl same ↦ rw same (o, others)
      | inr other ↦ rw other (o, append_to-Other d cs new others)
    ]

    append_to-Distinct : (cs : List (Category F)) → Distinct cs → Distinct (append_to p cs)
    unfolding append_to
    append_to-Distinct [] h = (tt, tt)
    append_to-Distinct (c ∷ cs) (others, h) = elim (Bool-cases (str_eq c.name p.name)) [
      | inl same ↦ rw same (others, h)
      | inr other ↦ rw other (append_to-Other c cs other others, append_to-Distinct cs h)
    ]

  -- The categories of the pairs with a property.
  pub record Grouped (D : PairRow F → Type 0) (cs : List (Category F)) : Type 0 where
    pub groups : All (CategoryOf D) cs
    pub covers : (p : PairRow F) → D p → str_eq p.name "" ≡ false → Any (Holds p) cs
    pub distinct : Distinct cs

  Grouped-map :
      (D E : PairRow F → Type 0) (cs : List (Category F))
      → ((p : PairRow F) → D p → E p)
      → ((p : PairRow F) → E p → D p)
      → Grouped D cs
      → Grouped E cs
  Grouped-map D E cs h h' g = record {
    groups = All-map _ _ cs (CategoryOf-map D E h) g.groups;
    covers = λ p e. g.covers p (h' p e);
    distinct = g.distinct;
  }

  append_to-Grouped :
      (p : PairRow F) (D : PairRow F → Type 0) (cs : List (Category F))
      → str_eq p.name "" ≡ false
      → Grouped D cs
      → Grouped (Or p D) (append_to p cs)
  append_to-Grouped p D cs named g = record {
    groups = append_to-groups p D cs named g.groups;
    covers = λ q has q_named. elim has [
      | inl same ↦ subst (λ q. Any (Holds q) (append_to p cs)) same (append_to-Holds_self p cs)
      | inr d ↦ append_to-Holds p q cs (g.covers q d q_named)
    ];
    distinct = append_to-Distinct p cs g.distinct;
  }

  unnamed-Grouped :
      (p : PairRow F) (D : PairRow F → Type 0) (cs : List (Category F))
      → str_eq p.name "" ≡ true
      → Grouped D cs
      → Grouped (Or p D) cs
  unnamed-Grouped p D cs unnamed g = record {
    groups = All-map _ _ cs (CategoryOf-map D (Or p D) (λ q x. inr x)) g.groups;
    covers = λ q has q_named. elim has [
      | inl same ↦ absurd (cc (ap (λ (q : PairRow F). str_eq q.name "") same))
      | inr d ↦ g.covers q d q_named
    ];
    distinct = g.distinct;
  }

  step-Grouped :
      (p : PairRow F) (D : PairRow F → Type 0) (cs : List (Category F))
      → Grouped D cs
      → Grouped (Or p D) (if str_eq p.name "" then cs else append_to p cs)
  step-Grouped p D cs g = elim (Bool-cases (str_eq p.name "")) [
    | inl unnamed ↦
        subst (Grouped (Or p D)) (sym (if_true cs (append_to p cs) unnamed))
          (unnamed-Grouped p D cs unnamed g)
    | inr named ↦
        subst (Grouped (Or p D)) (sym (if_false cs (append_to p cs) named))
          (append_to-Grouped p D cs named g)
  ]

  category_map-Grouped :
      (ps : List (PairRow F)) (D : PairRow F → Type 0) (cs : List (Category F))
      → Grouped D cs
      → Grouped (λ q. In q ps ⊎ D q) (category_map ps cs)
  unfolding category_map
  category_map-Grouped [] D cs g =
      Grouped-map D _ cs (λ p d. inr d)
        (λ p e. elim e [ inl none_has ↦ absurd none_has | inr d ↦ d ]) g
  category_map-Grouped (p ∷ ps) D cs g =
      Grouped-map (λ q. In q ps ⊎ Or p D q) (λ q. In q (p ∷ ps) ⊎ D q) (category_map (p ∷ ps) cs)
        (λ q e. elim e [
          | inl there ↦ inl (inr there)
          | inr (inl same) ↦ inl (inl same)
          | inr (inr d) ↦ inr d
        ])
        (λ q e. elim e [
          | inl (inl same) ↦ inr (inl same)
          | inl (inr there) ↦ inl there
          | inr d ↦ inr (inr d)
        ])
        (category_map-Grouped ps (Or p D) (if str_eq p.name "" then cs else append_to p cs)
          (step-Grouped p D cs g))

  -- The map of the pairs holds each of them that has a name, in a category of that name, and no
  -- others.
  pub categories-Grouped : (ps : List (PairRow F)) → Grouped (λ q. In q ps) (category_map ps [])
  categories-Grouped ps =
      Grouped-map (λ q. In q ps ⊎ ⊥) (λ q. In q ps) (category_map ps [])
        (λ q e. elim e [ inl there ↦ there | inr never ↦ absurd never ]) (λ q there. inl there)
        (category_map-Grouped ps (λ q. ⊥) []
          (record { groups = tt; covers = λ q d. absurd d; distinct = tt }))

  Other-sym : (c d : Category F) → Other c d → Other d c
  Other-sym c d h = elim (Bool-cases (str_eq d.name c.name)) [
    | inl same ↦ absurd (cc ((eq_iff c.name d.name).1 (sym ((eq_iff d.name c.name).0 same))))
    | inr other ↦ other
  ]

  Distinct-perm : {cs ds : List (Category F)} → Permᴰ cs ds → Distinct cs → Distinct ds
  Distinct-perm Permᴰ.nil h = tt
  Distinct-perm (Permᴰ.cons {a} {b} {l₁} {l₂} e d) (others, h) =
      (subst (λ c. All (Other c) l₂) e (All-perm (Other a) d others), Distinct-perm d h)
  Distinct-perm (Permᴰ.swap {a} {b} {a'} {b'} {l} e e') ((ab, others), (others', h)) = (
    (
      subst (λ c. Other c b') e' (subst (λ c. Other b c) e (Other-sym a b ab)),
      subst (λ c. All (Other c) l) e' others',
    ),
    (subst (λ c. All (Other c) l) e others, h),
  )
  Distinct-perm (Permᴰ.trans d d') h = Distinct-perm d' (Distinct-perm d h)

  -- The same holds of the categories in any order.
  pub Grouped-perm :
      (D : PairRow F → Type 0) {cs ds : List (Category F)}
      → Permᴰ cs ds
      → Grouped D cs
      → Grouped D ds
  Grouped-perm D perm g = record {
    groups = All-perm (CategoryOf D) perm g.groups;
    covers = λ p d named. Any-perm (Holds p) perm (g.covers p d named);
    distinct = Distinct-perm perm g.distinct;
  }
