-- ===== src/Transfers/Average.antt =====
-- block/price.go: `RemoveMinAndMaxAndCalculateAverage`.
use greet.Base.{
  ℕ, suc, ◌+◌, ◌≤◌, ◌==◌, ltb, ◌≡◌, refl, Bool, true, false, ◌||◌, Bool-cases, inl, inr,
  if◌then◌else◌, List, [], ◌∷◌, length, Option, none, some, Floats, arith,
}

-- `i == index`, where the index -1 is `none`.
abbrev pub is_index : ℕ → Option ℕ → Bool
is_index i none = false
is_index i (some j) = i == j

-- The numbers at the places from i on, without the two indices.
abbrev pub without : {A : Type 0} → ℕ → Option ℕ → Option ℕ → List A → List A
without i a b [] = []
without i a b (x ∷ xs) =
    let rest = without (suc i) a b xs in if is_index i a || is_index i b then rest else x ∷ rest

module _ (f : Floats) where
  open f use {F}

  -- The variables of the first loop.
  pub record Extremes : Type 0 where
    pub min_val : F
    pub max_val : F
    pub min_index : Option ℕ
    pub max_index : Option ℕ

  abbrev pub see_min : ℕ → F → Extremes → Extremes
  see_min i x s = if f.lt_f x s.min_val then record s { min_val = x; min_index = some i } else s

  abbrev pub see_max : ℕ → F → Extremes → Extremes
  see_max i x s = if f.lt_f s.max_val x then record s { max_val = x; max_index = some i } else s

  abbrev pub scan : ℕ → List F → Extremes → Extremes
  scan i [] s = s
  scan i (x ∷ xs) s = scan (suc i) xs (see_max i x (see_min i x s))

  abbrev pub extremes : List F → Extremes
  extremes nums =
      scan 0 nums
        (record { min_val = f.max_f; max_val = f.neg_max_f; min_index = none; max_index = none })

  abbrev pub sum_from : F → List F → F
  sum_from acc [] = acc
  sum_from acc (x ∷ xs) = sum_from (f.add_f acc x) xs

  -- `filteredNums`
  unfoldable pub filtered : List F → List F
  filtered nums = let s = extremes nums in without 0 s.min_index s.max_index nums

  unfoldable pub remove_min_and_max_and_calculate_average : List F → F
  unfolding filtered
  remove_min_and_max_and_calculate_average [] = f.zero_f
  remove_min_and_max_and_calculate_average (x ∷ []) = x
  remove_min_and_max_and_calculate_average (x ∷ y ∷ []) = f.div_f (f.add_f x y) f.two_f
  remove_min_and_max_and_calculate_average (x ∷ y ∷ z ∷ rest) =
      let kept = filtered (x ∷ y ∷ z ∷ rest) in
      f.div_f (sum_from f.zero_f kept) (f.of_nat (length kept))

-- How many more numbers an index can take away at the places from i on.
abbrev still : ℕ → Option ℕ → ℕ
still i none = 0
still i (some j) = if ltb j i then 0 else 1

still_step : (i : ℕ) (a : Option ℕ) → still (suc i) a ≤ still i a
still_step i none = omega arith
still_step i (some j) = ground arith

still_index : (i : ℕ) (a : Option ℕ) → is_index i a ≡ true → still (suc i) a + 1 ≤ still i a
still_index i none h = absurd cc
still_index i (some j) h = ground arith

still_le : (i : ℕ) (a : Option ℕ) → still i a ≤ 1
still_le i none = omega arith
still_le i (some j) = ground arith

length-without :
    {A : Type 0} (i : ℕ) (a b : Option ℕ) (xs : List A)
    → (length xs ≤ length (without i a b xs) + (still i a + still i b))
      × (length (without i a b xs) ≤ length xs)
length-without i a b [] = (omega arith, omega arith)
length-without i a b (x ∷ xs) =
    let (low, high) = length-without (suc i) a b xs in
    let step_a = still_step i a in
    let step_b = still_step i b in
    elim (Bool-cases (is_index i a)) [
      | inl at_a ↦ let one = still_index i a at_a in rw at_a (omega arith, omega arith)
      | inr not_a ↦ elim (Bool-cases (is_index i b)) [
        | inl at_b ↦ let one = still_index i b at_b in rw not_a (rw at_b (omega arith, omega arith))
        | inr not_b ↦ rw not_a (rw not_b (omega arith, omega arith))
      ]
    ]

module _ (f : Floats) where
  open f use {F}

  -- Of three prices or more at most two are taken away, the smallest and the largest that the scan
  -- found, so the average is over at least one price: it is the sum of what is left by its number,
  -- and that number is not zero.
  pub average_of_many :
      (x y z : F) (rest : List F)
      → let nums = x ∷ y ∷ z ∷ rest in
        (remove_min_and_max_and_calculate_average f nums
          ≡ f.div_f (sum_from f f.zero_f (filtered f nums)) (f.of_nat (length (filtered f nums))))
        × (length nums ≤ length (filtered f nums) + 2)
        × (1 ≤ length (filtered f nums))
        × (length (filtered f nums) ≤ length nums)
  unfolding remove_min_and_max_and_calculate_average
  average_of_many x y z rest =
      let s = extremes f (x ∷ y ∷ z ∷ rest) in
      let (low, high) = length-without 0 s.min_index s.max_index (x ∷ y ∷ z ∷ rest) in
      let one = still_le 0 s.min_index in
      let two = still_le 0 s.max_index in (refl, omega arith, omega arith, omega arith)
