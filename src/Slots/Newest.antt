-- ===== src/Slots/Newest.antt =====
-- Which failed blocks are tried again.
use mathlib.Core.Path.{subst}
use greet.Base.{
  ℕ, zero, suc, ◌≤◌, ltb, ◌≡◌, refl, sym, ap, ◌∙◌, ◌⊎◌, inl, inr, true, Bool-cases, if_true,
  if_false, List, [], ◌∷◌, length, take, filter, All, arith,
}
use greet.Base.Int.{ℤ}
use greet.Pump.{BlockRow}
use greet.Slots.{is_wanted, insert_by_slot, order_by_slot, processing_slots}

module _ {F : Type 0} where
  abbrev pub Within : BlockRow F → List (BlockRow F) → Type 0
  Within b [] = ⊥
  Within b (x ∷ xs) = (x ≡ b) ⊎ Within b xs

  abbrev pub Descending : List (BlockRow F) → Type 0
  Descending [] = Unit
  Descending (x ∷ xs) = All (λ y. y.slot ≤ x.slot) xs × Descending xs

  -- The newest rows that are asked for, at most so many.
  pub record Newest (rows : List (BlockRow F)) (low : ℤ) (limit : ℕ) (found : List (BlockRow F))
      : Type 0 where
    pub known : All (λ b. Within b rows) found
    pub wanted : All (λ b. is_wanted low b ≡ true) found
    pub descending : Descending found
    pub few : length found ≤ limit
    pub complete :
        (b : BlockRow F)
        → Within b rows
        → is_wanted low b ≡ true
        → Within b found ⊎ ((length found ≡ limit) × All (λ y. b.slot ≤ y.slot) found)

  All-Within {κ} :
      (P : BlockRow F → Type κ) (xs : List (BlockRow F)) (b : BlockRow F)
      → All P xs
      → Within b xs
      → P b
  All-Within P [] b ps w = absurd w
  All-Within P (x ∷ xs) b (p, _) (inl e) = subst P e p
  All-Within P (x ∷ xs) b (_, ps) (inr w) = All-Within P xs b ps w

  filter-Within :
      (low : ℤ) (xs : List (BlockRow F)) (b : BlockRow F)
      → Within b xs
      → is_wanted low b ≡ true
      → Within b (filter (is_wanted low) xs)
  filter-Within low [] b w h = absurd w
  filter-Within low (x ∷ xs) b (inl e) h =
      subst (λ ys. Within b ys) (sym (if_true _ _ (ap (is_wanted low) e ∙ h))) (inl e)
  filter-Within low (x ∷ xs) b (inr w) h = elim (Bool-cases (is_wanted low x)) [
    | inl y ↦ subst (λ ys. Within b ys) (sym (if_true _ _ y)) (inr (filter-Within low xs b w h))
    | inr n ↦ subst (λ ys. Within b ys) (sym (if_false _ _ n)) (filter-Within low xs b w h)
  ]

  filter-All :
      (low : ℤ) (xs : List (BlockRow F))
      → All (λ b. is_wanted low b ≡ true) (filter (is_wanted low) xs)
  filter-All low [] = tt
  filter-All low (x ∷ xs) = elim (Bool-cases (is_wanted low x)) [
    | inl y ↦ subst (All (λ b. is_wanted low b ≡ true)) (sym (if_true _ _ y)) (y, filter-All low xs)
    | inr n ↦ subst (All (λ b. is_wanted low b ≡ true)) (sym (if_false _ _ n)) (filter-All low xs)
  ]

  filter-All_kept {κ} :
      (P : BlockRow F → Type κ) (low : ℤ) (xs : List (BlockRow F))
      → All P xs
      → All P (filter (is_wanted low) xs)
  filter-All_kept P low [] ps = tt
  filter-All_kept P low (x ∷ xs) (p, ps) = elim (Bool-cases (is_wanted low x)) [
    | inl y ↦ subst (All P) (sym (if_true _ _ y)) (p, filter-All_kept P low xs ps)
    | inr n ↦ subst (All P) (sym (if_false _ _ n)) (filter-All_kept P low xs ps)
  ]

  insert_by_slot-Within :
      (x : BlockRow F) (xs : List (BlockRow F)) (b : BlockRow F)
      → Within b (x ∷ xs)
      → Within b (insert_by_slot x xs)
  insert_by_slot-Within x [] b w = w
  insert_by_slot-Within x (y ∷ ys) b w = elim (Bool-cases (ltb x.slot y.slot)) [
    | inl l ↦
        subst (λ zs. Within b zs) (sym (if_true _ _ l))
          (elim w [
            | inl e ↦ inr (insert_by_slot-Within x ys b (inl e))
            | inr (inl e) ↦ inl e
            | inr (inr v) ↦ inr (insert_by_slot-Within x ys b (inr v))
          ])
    | inr g ↦ subst (λ zs. Within b zs) (sym (if_false _ _ g)) w
  ]

  insert_by_slot-All {κ} :
      (P : BlockRow F → Type κ) (x : BlockRow F) (xs : List (BlockRow F))
      → P x
      → All P xs
      → All P (insert_by_slot x xs)
  insert_by_slot-All P x [] p ps = (p, ps)
  insert_by_slot-All P x (y ∷ ys) p (q, qs) = elim (Bool-cases (ltb x.slot y.slot)) [
    | inl l ↦ subst (All P) (sym (if_true _ _ l)) (q, insert_by_slot-All P x ys p qs)
    | inr g ↦ subst (All P) (sym (if_false _ _ g)) (p, (q, qs))
  ]

  All-map {κ μ} :
      (P : BlockRow F → Type κ) (Q : BlockRow F → Type μ) (xs : List (BlockRow F))
      → ((b : BlockRow F) → P b → Q b)
      → All P xs
      → All Q xs
  All-map P Q [] g ps = tt
  All-map P Q (x ∷ xs) g (p, ps) = (g x p, All-map P Q xs g ps)

  each_row-Within : (xs : List (BlockRow F)) → All (λ b. Within b xs) xs
  each_row-Within [] = tt
  each_row-Within (x ∷ xs) = (inl refl, All-map _ _ xs (λ b w. inr w) (each_row-Within xs))

  insert_by_slot-Descending :
      (x : BlockRow F) (xs : List (BlockRow F)) → Descending xs → Descending (insert_by_slot x xs)
  insert_by_slot-Descending x [] d = (tt, tt)
  insert_by_slot-Descending x (y ∷ ys) (top, d) = elim (Bool-cases (ltb x.slot y.slot)) [
    | inl l ↦
        let below : x.slot ≤ y.slot = ground arith in
        subst Descending (sym (if_true _ _ l))
          (insert_by_slot-All _ x ys below top, insert_by_slot-Descending x ys d)
    | inr g ↦
        let below : y.slot ≤ x.slot = ground arith in
        subst Descending (sym (if_false _ _ g))
          ((below, All-map _ _ ys (λ b h. omega (arith, h, below)) top), (top, d))
  ]

  order_by_slot-Within :
      (xs : List (BlockRow F)) (b : BlockRow F) → Within b xs → Within b (order_by_slot xs)
  order_by_slot-Within [] b w = absurd w
  order_by_slot-Within (x ∷ xs) b (inl e) = insert_by_slot-Within x (order_by_slot xs) b (inl e)
  order_by_slot-Within (x ∷ xs) b (inr w) =
      insert_by_slot-Within x (order_by_slot xs) b (inr (order_by_slot-Within xs b w))

  order_by_slot-All {κ} :
      (P : BlockRow F → Type κ) (xs : List (BlockRow F)) → All P xs → All P (order_by_slot xs)
  order_by_slot-All P [] ps = tt
  order_by_slot-All P (x ∷ xs) (p, ps) =
      insert_by_slot-All P x (order_by_slot xs) p (order_by_slot-All P xs ps)

  order_by_slot-Descending : (xs : List (BlockRow F)) → Descending (order_by_slot xs)
  order_by_slot-Descending [] = tt
  order_by_slot-Descending (x ∷ xs) =
      insert_by_slot-Descending x (order_by_slot xs) (order_by_slot-Descending xs)

  take-All {κ} :
      (P : BlockRow F → Type κ) (n : ℕ) (xs : List (BlockRow F)) → All P xs → All P (take n xs)
  take-All P zero xs ps = tt
  take-All P (suc n) [] ps = tt
  take-All P (suc n) (x ∷ xs) (p, ps) = (p, take-All P n xs ps)

  take-Descending : (n : ℕ) (xs : List (BlockRow F)) → Descending xs → Descending (take n xs)
  take-Descending zero xs d = tt
  take-Descending (suc n) [] d = tt
  take-Descending (suc n) (x ∷ xs) (top, d) = (take-All _ n xs top, take-Descending n xs d)

  length-take_le : (n : ℕ) (xs : List (BlockRow F)) → length (take n xs) ≤ n
  length-take_le zero xs = omega arith
  length-take_le (suc n) [] = omega arith
  length-take_le (suc n) (x ∷ xs) = omega (arith, length-take_le n xs)

  take-Within :
      (n : ℕ) (xs : List (BlockRow F)) (b : BlockRow F)
      → Descending xs
      → Within b xs
      → Within b (take n xs) ⊎ ((length (take n xs) ≡ n) × All (λ y. b.slot ≤ y.slot) (take n xs))
  take-Within zero xs b d w = inr (refl, tt)
  take-Within (suc n) [] b d w = absurd w
  take-Within (suc n) (x ∷ xs) b d (inl e) = inl (inl e)
  take-Within (suc n) (x ∷ xs) b (top, d) (inr w) = elim (take-Within n xs b d w) [
    | inl v ↦ inl (inr v)
    | inr (full, above) ↦ inr (ap suc full, (All-Within _ xs b top w, above))
  ]

  -- `FindProcessingSlots` gives failed rows of the table that are new enough, the newest first and
  -- at most as many as asked for; a failed row of the table that is new enough and not given has a
  -- slot that is not above any of those given, and then as many are given as asked for.
  pub processing_slots-Newest :
      (low : ℤ) (limit : ℕ) (rows : List (BlockRow F))
      → Newest rows low limit (processing_slots low limit rows)
  unfolding processing_slots
  processing_slots-Newest low limit rows =
      let wanted = filter (is_wanted low) rows in
      let sorted = order_by_slot wanted in
      record {
        known =
            take-All _ limit sorted
              (order_by_slot-All _ wanted (filter-All_kept _ low rows (each_row-Within rows)));
        wanted = take-All _ limit sorted (order_by_slot-All _ wanted (filter-All low rows));
        descending = take-Descending limit sorted (order_by_slot-Descending wanted);
        few = length-take_le limit sorted;
        complete = λ b w h.
            take-Within limit sorted b (order_by_slot-Descending wanted)
              (order_by_slot-Within wanted b (filter-Within low rows b w h));
      }
