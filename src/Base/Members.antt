-- ===== src/Base/Members.antt =====
-- A property of some member or of all members of a list.
use mathlib.Core.Path.{◌≡◌, refl, sym, ap, ◌∙◌, subst}
use mathlib.Core.Bool.{Bool, true}
use greet.Base.Tests.{if◌then◌else◌, Bool-cases}
use mathlib.Core.Logic.{◌⊎◌, inl, inr}
use mathlib.Core.List.{List, [], ◌∷◌, ◌++◌, map, Permᴰ}
use greet.Base.Lists.{All, filter}

module _ {A : Type 0} where
  abbrev pub Any : (A → Type 0) → List A → Type 0
  Any _ [] = ⊥
  Any P (x ∷ xs) = P x ⊎ Any P xs

  pub Any-map :
      (P : A → Type 0) (Q : A → Type 0) (xs : List A) → ((a : A) → P a → Q a) → Any P xs → Any Q xs
  Any-map P Q [] h none_has = absurd none_has
  Any-map P Q (x ∷ xs) h (inl p) = inl (h x p)
  Any-map P Q (x ∷ xs) h (inr ps) = inr (Any-map P Q xs h ps)

  pub All-map :
      (P : A → Type 0) (Q : A → Type 0) (xs : List A) → ((a : A) → P a → Q a) → All P xs → All Q xs
  All-map P Q [] h ps = tt
  All-map P Q (x ∷ xs) h (p, ps) = (h x p, All-map P Q xs h ps)

  pub All-append : (P : A → Type 0) (xs ys : List A) → All P xs → All P ys → All P (xs ++ ys)
  All-append P [] ys ps qs = qs
  All-append P (x ∷ xs) ys (p, ps) qs = (p, All-append P xs ys ps qs)

  pub Any-All :
      (P : A → Type 0) (Q : A → Type 0) (xs : List A)
      → All P xs
      → Any Q xs
      → (a : A) × P a × Q a × Any (λ b. b ≡ a) xs
  Any-All P Q [] ps none_has = absurd none_has
  Any-All P Q (x ∷ xs) (p, ps) (inl q) = (x, p, q, inl refl)
  Any-All P Q (x ∷ xs) (p, ps) (inr qs) =
      let (a, pa, qa, there) = Any-All P Q xs ps qs in (a, pa, qa, inr there)

  pub Any-append : (P : A → Type 0) (xs ys : List A) → Any P xs ⊎ Any P ys → Any P (xs ++ ys)
  Any-append P [] ys (inl none_has) = absurd none_has
  Any-append P [] ys (inr q) = q
  Any-append P (x ∷ xs) ys (inl (inl p)) = inl p
  Any-append P (x ∷ xs) ys (inl (inr p)) = inr (Any-append P xs ys (inl p))
  Any-append P (x ∷ xs) ys (inr q) = inr (Any-append P xs ys (inr q))

  -- A property of all members of a list.
  pub All-of : (P : A → Type 0) (xs : List A) → ((a : A) → Any (λ b. b ≡ a) xs → P a) → All P xs
  All-of P [] h = tt
  All-of P (x ∷ xs) h = (h x (inl refl), All-of P xs (λ a m. h a (inr m)))

  pub All-at : (P : A → Type 0) (xs : List A) {a : A} → All P xs → Any (λ b. b ≡ a) xs → P a
  All-at P xs ps m = let (b, p, same, _) = Any-All P _ xs ps m in subst P same p

  abbrev pub In : A → List A → Type 0
  In a = Any (λ b. b ≡ a)

  pub In-filter :
      (test : A → Bool) (xs : List A) (a : A) → test a ≡ true → In a xs → In a (filter test xs)
  In-filter test [] a h none_has = absurd none_has
  In-filter test (x ∷ xs) a h (inl same) = rw (ap test same ∙ h) (inl same)
  In-filter test (x ∷ xs) a h (inr there) =
      let rest = In-filter test xs a h there in
      elim (Bool-cases (test x)) [ inl t ↦ rw t (inr rest) | inr t ↦ rw t rest ]

  pub filter-In :
      (test : A → Bool) (xs : List A) (a : A) → In a (filter test xs) → In a xs × (test a ≡ true)
  filter-In test [] a none_has = absurd none_has
  filter-In test (x ∷ xs) a m = elim (Bool-cases (test x)) [
    | inl t ↦ elim (subst (λ b. In a (if b then x ∷ filter test xs else filter test xs)) t m) [
      | inl same ↦ (inl same, sym (ap test same) ∙ t)
      | inr there ↦ let (m', h) = filter-In test xs a there in (inr m', h)
    ]
    | inr t ↦
        let (m', h) =
          filter-In test xs a
            (subst (λ b. In a (if b then x ∷ filter test xs else filter test xs)) t m) in
        (inr m', h)
  ]

  -- Permutations keep what holds of the members.
  pub All-perm : (P : A → Type 0) {xs ys : List A} → Permᴰ xs ys → All P xs → All P ys
  All-perm P Permᴰ.nil ps = tt
  All-perm P (Permᴰ.cons e d) (p, ps) = (subst P e p, All-perm P d ps)
  All-perm P (Permᴰ.swap e e') (p, (q, ps)) = (subst P e' q, (subst P e p, ps))
  All-perm P (Permᴰ.trans d d') ps = All-perm P d' (All-perm P d ps)

  pub Any-perm : (P : A → Type 0) {xs ys : List A} → Permᴰ xs ys → Any P xs → Any P ys
  Any-perm P Permᴰ.nil none_has = absurd none_has
  Any-perm P (Permᴰ.cons e d) (inl p) = inl (subst P e p)
  Any-perm P (Permᴰ.cons e d) (inr ps) = inr (Any-perm P d ps)
  Any-perm P (Permᴰ.swap e e') (inl p) = inr (inl (subst P e p))
  Any-perm P (Permᴰ.swap e e') (inr (inl q)) = inl (subst P e' q)
  Any-perm P (Permᴰ.swap e e') (inr (inr ps)) = inr (inr ps)
  Any-perm P (Permᴰ.trans d d') ps = Any-perm P d' (Any-perm P d ps)

module _ {A B : Type 0} where
  pub In-map : (g : A → B) (xs : List A) (a : A) → In a xs → In (g a) (map g xs)
  In-map g [] a none_has = absurd none_has
  In-map g (x ∷ xs) a (inl same) = inl (ap g same)
  In-map g (x ∷ xs) a (inr there) = inr (In-map g xs a there)

  pub map-In : (g : A → B) (xs : List A) (b : B) → In b (map g xs) → Any (λ a. g a ≡ b) xs
  map-In g [] b none_has = absurd none_has
  map-In g (x ∷ xs) b (inl same) = inl same
  map-In g (x ∷ xs) b (inr there) = inr (map-In g xs b there)
