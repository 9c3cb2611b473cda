-- ===== src/Blocks/Fetch.antt =====
-- block/price.go: `GetSolBlockInfo`, which asks the node again while the block is not available or
-- the rate limit is met.
use mathlib.Core.Path.{subst}
use greet.Base.{
  ℕ, zero, suc, ◌+◌, ◌≤◌, ◌<◌, ◌==◌, ltb, ◌≡◌, refl, sym, ◌∙◌, ◌⊎◌, inl, inr, Bool, true, false,
  ◌||◌, Bool-cases, if◌then◌else◌, if_true, if_false, Error, error_text, Result, ok, err, arith,
}
use Prim.Native.String.{◌++◌ as ◌<>◌}
use greet.Base.Text.{contains}

module _ {B : Type 0} where
  -- Whether an answer is tried again.
  abbrev pub again : Result B → Bool
  again (ok b) = false
  again (err e) =
      contains (error_text e) "Block not available for slot" || contains (error_text e) "limit"

  -- What is returned of an answer that is not tried again.
  abbrev pub settled : Result B → Result B
  settled (ok b) = ok b
  settled (err e) = err (Error.other ("GetBlock err:" <> error_text e))

  -- The loop from the attempt n on; `count` is n minus one there. `cancelled n` says that the
  -- context is done before attempt n.
  fetch_from : ℕ → (ℕ → Bool) → Error → (ℕ → Result B) → ℕ → Result B
  fetch_from zero cancelled ctx_err ask n = ask n
  fetch_from (suc fuel) cancelled ctx_err ask n =
      let later = fetch_from fuel cancelled ctx_err ask (suc n) in
      if cancelled n
      then err ctx_err
      else if again (ask n)
      then (if ltb 10 n then ask n else later)
      else settled (ask n)

  -- Eleven attempts are the most: at the eleventh the count passes ten.
  unfoldable pub get_sol_block_info : (ℕ → Bool) → Error → (ℕ → Result B) → Result B
  unfolding fetch_from
  get_sol_block_info cancelled ctx_err ask = fetch_from 11 cancelled ctx_err ask 1

  -- The loop ends at attempt n: the context is done, or the answer is not tried again, or it is the
  -- eleventh.
  abbrev pub EndsAt : (ℕ → Bool) → Error → (ℕ → Result B) → ℕ → Result B → Type 0
  EndsAt cancelled ctx_err ask n r =
      ((cancelled n ≡ true) × (r ≡ err ctx_err))
      ⊎ ((cancelled n ≡ false)
          × (((again (ask n) ≡ false) × (r ≡ settled (ask n)))
              ⊎ ((again (ask n) ≡ true) × (n ≡ 11) × (r ≡ ask n))))

  -- The context is not done before attempt j, and its answer is tried again.
  abbrev pub GoesOn : (ℕ → Bool) → (ℕ → Result B) → ℕ → Type 0
  GoesOn cancelled ask j = (cancelled j ≡ false) × (again (ask j) ≡ true)

  fetch_from-EndsAt :
      (fuel : ℕ) (cancelled : ℕ → Bool) (ctx_err : Error) (ask : ℕ → Result B) (n : ℕ)
      → fuel + n ≡ 12
      → 1 ≤ fuel
      → (k : ℕ) × (n ≤ k)
        × (k ≤ 11)
        × EndsAt cancelled ctx_err ask k (fetch_from fuel cancelled ctx_err ask n)
        × ((j : ℕ) → n ≤ j → j < k → GoesOn cancelled ask j)
  unfolding fetch_from
  fetch_from-EndsAt zero cancelled ctx_err ask n h some_fuel = absurd (omega arith)
  fetch_from-EndsAt (suc fuel) cancelled ctx_err ask n h some_fuel =
      elim (Bool-cases (cancelled n)) [
        | inl done ↦ (
          n,
          omega arith,
          omega arith,
          inl (done, if_true _ _ done),
          λ j le lt. absurd (omega arith),
        )
        | inr alive ↦ elim (Bool-cases (again (ask n))) [
          | inr final ↦ (
            n,
            omega arith,
            omega arith,
            inr (alive, inl (final, if_false _ _ alive ∙ if_false _ _ final)),
            λ j le lt. absurd (omega arith),
          )
          | inl retry ↦ elim (Bool-cases (ltb 10 n)) [
            | inl last ↦
                let eleven : n ≡ 11 = ground arith in
                (
                  n,
                  omega arith,
                  omega arith,
                  inr (
                    alive,
                    inr (
                      retry,
                      eleven,
                      if_false _ _ alive ∙ (if_true _ _ retry ∙ if_true _ _ last),
                    ),
                  ),
                  λ j le lt. absurd (omega arith),
                )
            | inr more ↦
                let below : n ≤ 10 = ground arith in
                let (k, le, bound, ends, goes) =
                  fetch_from-EndsAt fuel cancelled ctx_err ask (suc n) (omega arith)
                    (omega arith) in
                (
                  k,
                  omega arith,
                  bound,
                  subst (EndsAt cancelled ctx_err ask k)
                      (sym (if_false _ _ alive ∙ (if_true _ _ retry ∙ if_false _ _ more))) ends,
                  λ j lower upper. elim (Bool-cases (n == j)) [
                    | inl same ↦
                        let q : n ≡ j = ground arith in
                        subst (GoesOn cancelled ask) q (alive, retry)
                    | inr differ ↦ goes j (ground arith) upper
                  ],
                )
          ]
        ]
      ]

  -- A block is asked for at most eleven times. The call returns at the first attempt before which
  -- the context is done, whose answer is not tried again, or which is the eleventh, and what it
  -- returns is the context's error, that answer (an error of the node wrapped), or the eleventh
  -- answer as it is.
  pub get_sol_block_info-EndsAt :
      (cancelled : ℕ → Bool) (ctx_err : Error) (ask : ℕ → Result B)
      → (k : ℕ) × (1 ≤ k)
        × (k ≤ 11)
        × EndsAt cancelled ctx_err ask k (get_sol_block_info cancelled ctx_err ask)
        × ((j : ℕ) → 1 ≤ j → j < k → GoesOn cancelled ask j)
  unfolding get_sol_block_info
  get_sol_block_info-EndsAt cancelled ctx_err ask =
      fetch_from-EndsAt 11 cancelled ctx_err ask 1 refl (omega arith)
