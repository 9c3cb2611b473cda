-- ===== src/Transfers/Decode/Laws.antt =====
-- What the decoding of a transfer returns, and that it reads no index out of range where the
-- instruction's indices are in range.
use greet.Base.{
  ℕ, zero, suc, ◌+◌, ◌^◌, ◌<◌, ◌≤◌, ◌==◌, ltb, ◌≡◌, refl, sym, ap, ◌∙◌, String, Bool, true, false,
  Bool-cases, ◌⊎◌, inl, inr, str_eq, List, [], ◌∷◌, ◌++◌, if◌then◌else◌, length, get_elem?,
  get_elem?-lt, length-take, length-drop, take, drop, All, Option, none, some, Result, ok, arith,
}
use greet.Base.Bytes.{uint64_of, le_bytes, uint64_of-le_bytes}
use greet.Transfers.Types.{
  CompiledInstruction, InnerInstruction, TransferParam, program_token, program_token2022,
}
use greet.Transfers.Decode.{
  key_at, transfer_of, checked_length, by_tag, by_data, decode_with, decode_program,
  decode_token_transfer, get_inner_instruction_by_inner,
}

-- The indices of an instruction are those of keys of its transaction.
abbrev pub InRange : List String → CompiledInstruction → Type 0
InRange keys i = (i.program_id_index < length keys) × All (λ j. j < length keys) i.accounts

-- At a place of a list of indices in range there is a key.
key_at-total :
    (keys : List String) (accounts : List ℕ) (i : ℕ)
    → All (λ j. j < length keys) accounts
    → i < length accounts
    → (k : String) × (key_at keys accounts i ≡ some k)
key_at-total keys [] i h lt = absurd (omega arith)
key_at-total keys (j ∷ accounts) zero h lt = get_elem?-lt keys j h.0
key_at-total keys (j ∷ accounts) (suc i) h lt = key_at-total keys accounts i h.1 (omega arith)

transfer_of-total :
    (keys : List String) (i : CompiledInstruction) (from to auth : ℕ)
    → All (λ j. j < length keys) i.accounts
    → from < length i.accounts
    → to < length i.accounts
    → auth < length i.accounts
    → (r : Result TransferParam) × (transfer_of keys i from to auth ≡ some r)
transfer_of-total keys i from to auth h lf lt la =
    let (f, ef) = key_at-total keys i.accounts from h lf in
    let (t, et) = key_at-total keys i.accounts to h lt in
    let (a, ea) = key_at-total keys i.accounts auth h la in
    (
      ok (record { from = f; to = t; auth = a; amount = uint64_of (drop 1 i.bytes) }),
      cc (ef, et, ea),
    )

-- A test of which both branches return.
if_total :
    {A : Type 0} (b : Bool) {x y : Option A}
    → (b ≡ true → (a : A) × (x ≡ some a))
    → (b ≡ false → (a : A) × (y ≡ some a))
    → (a : A) × ((if b then x else y) ≡ some a)
if_total true hx hy = hx refl
if_total false hx hy = hy refl

refused : {A : Type 0} (r : A) → (a : A) × (some r ≡ some a)
refused r = (r, refl)

by_tag-total :
    (exact : Bool) (keys : List String) (i : CompiledInstruction) (tag : ℕ)
    → All (λ j. j < length keys) i.accounts
    → 3 ≤ length i.accounts
    → (r : Result TransferParam) × (by_tag exact keys i tag ≡ some r)
by_tag-total exact keys i tag h three =
    if_total (tag == 3)
      (λ _.
        if_total (length i.bytes == 9)
          (λ _. transfer_of-total keys i 0 1 2 h (omega arith) (omega arith) (omega arith))
          (λ _. refused _))
      (λ _.
        if_total (tag == 12)
          (λ _.
            if_total (checked_length exact (length i.bytes))
              (λ _.
                if_total (ltb (length i.accounts) 4) (λ _. refused _)
                  (λ enough.
                    let four : 4 ≤ length i.accounts = ground arith in
                    transfer_of-total keys i 0 2 3 h (omega arith) (omega arith) (omega arith)))
              (λ _. refused _))
          (λ _. refused _))

by_data-total :
    (exact : Bool) (keys : List String) (i : CompiledInstruction) (bytes : List ℕ)
    → All (λ j. j < length keys) i.accounts
    → 3 ≤ length i.accounts
    → (r : Result TransferParam) × (by_data exact keys i bytes ≡ some r)
by_data-total exact keys i [] h three = refused _
by_data-total exact keys i (tag ∷ _) h three = by_tag-total exact keys i tag h three

decode_with-total :
    (exact : Bool) (keys : List String) (i : CompiledInstruction)
    → All (λ j. j < length keys) i.accounts
    → (r : Result TransferParam) × (decode_with exact keys i ≡ some r)
decode_with-total exact keys i h =
    if_total (ltb (length i.accounts) 3) (λ _. refused _)
      (λ enough. by_data-total exact keys i i.bytes h (ground arith))

decode_program-total :
    (keys : List String) (i : CompiledInstruction) (program : String)
    → All (λ j. j < length keys) i.accounts
    → (r : Result TransferParam) × (decode_program keys i program ≡ some r)
decode_program-total keys i p h =
    if_total (str_eq p program_token2022) (λ _. decode_with-total false keys i h)
      (λ _.
        if_total (str_eq p program_token) (λ _. decode_with-total true keys i h) (λ _. refused _))

-- Where the indices of an instruction are those of keys of its transaction, the decoding of a
-- transfer returns a transfer or an error: it reads no list out of range.
pub decode_token_transfer-total :
    (keys : List String) (i : CompiledInstruction)
    → InRange keys i
    → (r : Result TransferParam) × (decode_token_transfer keys i ≡ some r)
unfolding decode_token_transfer
decode_token_transfer-total keys i (program, accounts) =
    let (p, e) = get_elem?-lt keys i.program_id_index program in
    let (r, q) = decode_program-total keys i p accounts in (r, rw e q)

-- The layout of the token program for a `Transfer` and a `TransferChecked`.
abbrev pub transfer_bytes : ℕ → List ℕ
transfer_bytes amount = 3 ∷ le_bytes 8 amount

abbrev pub checked_bytes : ℕ → ℕ → List ℕ
checked_bytes amount decimals = 12 ∷ (le_bytes 8 amount ++ (decimals ∷ []))

-- An instruction of the token program as its layout says.
abbrev pub transfer_instruction : ℕ → ℕ → ℕ → ℕ → List ℕ → ℕ → CompiledInstruction
transfer_instruction p f t a rest amount = record {
  program_id_index = p;
  accounts = f ∷ t ∷ a ∷ rest;
  bytes = transfer_bytes amount;
}

abbrev pub checked_instruction : ℕ → ℕ → ℕ → ℕ → ℕ → List ℕ → ℕ → ℕ → CompiledInstruction
checked_instruction p f mint t a rest amount decimals = record {
  program_id_index = p;
  accounts = f ∷ mint ∷ t ∷ a ∷ rest;
  bytes = checked_bytes amount decimals;
}

module _ (keys : List String) (p f t a : ℕ) (rest : List ℕ) (amount : ℕ) {from to auth : String}
    (ef : get_elem? keys f ≡ some from) (et : get_elem? keys t ≡ some to)
    (ea : get_elem? keys a ≡ some auth) (h : amount < 2 ^ 64) where
  abbrev found : ℕ → Option (Result TransferParam)
  found n = some (ok (record { from = from; to = to; auth = auth; amount = n }))

  three : ltb (suc (suc (suc (suc (length rest))))) 3 ≡ false
  three = ground arith

  four : ltb (suc (suc (suc (suc (length rest))))) 4 ≡ false
  four = ground arith

  decode_transfer :
      (exact : Bool)
      → decode_with exact keys (transfer_instruction p f t a rest amount) ≡ found amount
  decode_transfer exact =
      let enough : ltb (suc (suc (suc (length rest)))) 3 ≡ false = ground arith in
      rw enough (rw ef (rw et (rw ea (ap found (uint64_of-le_bytes amount [] h)))))

  decode_checked :
      (exact : Bool) (mint decimals : ℕ)
      → decode_with exact keys (checked_instruction p f mint t a rest amount decimals)
        ≡ found amount
  decode_checked true mint decimals =
      rw three
        (rw four (rw ef (rw et (rw ea (ap found (uint64_of-le_bytes amount (decimals ∷ []) h))))))
  decode_checked false mint decimals =
      rw three
        (rw four (rw ef (rw et (rw ea (ap found (uint64_of-le_bytes amount (decimals ∷ []) h))))))

  -- A `Transfer` and a `TransferChecked` of either token program, laid out as the program asks and
  -- with its accounts among the transaction's keys, are decoded to the transfer that they say.
  pub decode_token_transfer_roundtrip :
      {name : String} (mint decimals : ℕ)
      → get_elem? keys p ≡ some name
      → (name ≡ program_token) ⊎ (name ≡ program_token2022)
      → let transfer = found amount in
        (decode_token_transfer keys (transfer_instruction p f t a rest amount) ≡ transfer)
        × (decode_token_transfer keys (checked_instruction p f mint t a rest amount decimals)
            ≡ transfer)
  unfolding decode_token_transfer
  decode_token_transfer_roundtrip mint decimals e (inl token) =
      (rw e (rw token (decode_transfer true)), rw e (rw token (decode_checked true mint decimals)))
  decode_token_transfer_roundtrip mint decimals e (inr token) = (
    rw e (rw token (decode_transfer false)),
    rw e (rw token (decode_checked false mint decimals)),
  )

get_elem?-drop :
    {A : Type 0} (n j : ℕ) (xs : List A) → get_elem? (drop n xs) j ≡ get_elem? xs (n + j)
get_elem?-drop zero j xs = let e : 0 + j ≡ j = omega arith in ap (get_elem? xs) (sym e)
get_elem?-drop (suc n) j [] = refl
get_elem?-drop (suc n) j (x ∷ xs) =
    let e : suc n + j ≡ suc (n + j) = omega arith in
    get_elem?-drop n j xs ∙ ap (get_elem? (x ∷ xs)) (sym e)

get_elem?-take :
    {A : Type 0} (n j : ℕ) (xs : List A) → j < n → get_elem? (take n xs) j ≡ get_elem? xs j
get_elem?-take zero j xs h = absurd (omega arith)
get_elem?-take (suc n) j [] h = refl
get_elem?-take (suc n) zero (x ∷ xs) h = refl
get_elem?-take (suc n) (suc j) (x ∷ xs) h = get_elem?-take n j xs (omega arith)

-- The instructions that follow a place are there exactly where the list has that many more; they
-- are then as many as asked for, each the one at its place in the list.
pub get_inner_instruction_by_inner_lem :
    (is : List CompiledInstruction) (start n : ℕ)
    → ((length is ≤ start + n) × (get_inner_instruction_by_inner is start n ≡ none))
      ⊎ ((start + n < length is)
          × (inner : InnerInstruction) × (get_inner_instruction_by_inner is start n ≡ some inner)
          × (length inner.instructions ≡ n)
          × ((j : ℕ) → j < n → get_elem? inner.instructions j ≡ get_elem? is (start + 1 + j)))
unfolding get_inner_instruction_by_inner
get_inner_instruction_by_inner_lem is start n =
    elim (Bool-cases (ltb (length is) (start + n + 1))) [
      | inl few ↦ inl (ground arith, rw few refl)
      | inr enough ↦
          let room : start + n < length is = ground arith in
          let (i, e) = get_elem?-lt is start (omega arith) in
          let size = length-drop (start + 1) is in
          inr (
            room,
            record { index = i.program_id_index; instructions = take n (drop (start + 1) is) },
            rw enough (rw e refl),
            length-take n (drop (start + 1) is) (omega arith),
            λ j h. get_elem?-take n j (drop (start + 1) is) h ∙ get_elem?-drop (start + 1) j is,
          )
    ]
