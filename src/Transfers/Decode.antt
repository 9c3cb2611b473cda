-- ===== src/Transfers/Decode.antt =====
-- block/price.go: `DecodeTokenTransfer`, `GetInnerInstructionByInner` and `in`. `none` is the panic
-- of an index out of range.
pub mod Laws
use greet.Base.{
  ℕ, zero, suc, ◌+◌, ◌*◌, ◌==◌, ltb, String, Bool, true, false, ◌||◌, not, if◌then◌else◌, str_eq,
  List, [], ◌∷◌, length, get_elem?, take, drop, Option, none, some, and_then, Error, Result, ok,
  err,
}
use greet.Base.Bytes.{uint64_of}
use greet.Transfers.Types.{
  CompiledInstruction, InnerInstruction, TransferParam, program_token, program_token2022,
}

-- `accountKeys[instruction.Accounts[i]]`
abbrev pub key_at : List String → List ℕ → ℕ → Option String
key_at keys accounts i = and_then (get_elem? accounts i) (λ j. get_elem? keys j)

-- The transfer whose accounts stand at the three places.
abbrev pub transfer_of :
    List String → CompiledInstruction → ℕ → ℕ → ℕ → Option (Result TransferParam)
transfer_of keys i from to auth = and_then (key_at keys i.accounts from) λ f.
    and_then (key_at keys i.accounts to) λ t.
      and_then (key_at keys i.accounts auth)
        λ a. some (ok (record { from = f; to = t; auth = a; amount = uint64_of (drop 1 i.bytes) }))

abbrev pub refuse : String → Option (Result TransferParam)
refuse why = some (err (Error.other why))

-- The two programs differ in the length of a `TransferChecked` that they take: `exact` asks for 10
-- bytes, the other for 10 or more.
abbrev pub checked_length : Bool → ℕ → Bool
checked_length true n = n == 10
checked_length false n = not (ltb n 10)

-- Tags: 3 is `InstructionTransfer` and 12 `InstructionTransferChecked`.
abbrev pub by_tag : Bool → List String → CompiledInstruction → ℕ → Option (Result TransferParam)
by_tag exact keys i tag =
    if tag == 3
    then (if length i.bytes == 9 then transfer_of keys i 0 1 2 else refuse "data len not equal 9")
    else if tag == 12
    then (if checked_length exact (length i.bytes)
        then (if ltb (length i.accounts) 4
            then refuse "account len too small"
            else transfer_of keys i 0 2 3)
        else refuse "data len not equal 10")
    else refuse "not transfer Instruction"

abbrev pub by_data :
    Bool → List String → CompiledInstruction → List ℕ → Option (Result TransferParam)
by_data exact keys i [] = refuse (if exact then "data len to0 small" else "data len too small")
by_data exact keys i (tag ∷ _) = by_tag exact keys i tag

-- The part for one token program.
abbrev pub decode_with : Bool → List String → CompiledInstruction → Option (Result TransferParam)
decode_with exact keys i =
    if ltb (length i.accounts) 3 then refuse "not enough accounts" else by_data exact keys i i.bytes

-- … for the program of the instruction.
abbrev pub decode_program :
    List String → CompiledInstruction → String → Option (Result TransferParam)
decode_program keys i program =
    if str_eq program program_token2022
    then decode_with false keys i
    else if str_eq program program_token
    then decode_with true keys i
    else refuse "not token program"

unfoldable pub decode_token_transfer :
    List String → CompiledInstruction → Option (Result TransferParam)
decode_token_transfer keys i =
    and_then (get_elem? keys i.program_id_index) (λ program. decode_program keys i program)

-- `GetInnerInstructionByInner`: the innerLen instructions after startIndex (`none`: nil).
unfoldable pub get_inner_instruction_by_inner :
    List CompiledInstruction → ℕ → ℕ → Option InnerInstruction
get_inner_instruction_by_inner is start inner_len =
    if ltb (length is) (start + inner_len + 1)
    then none
    else and_then (get_elem? is start) λ i.
      some
        (record { index = i.program_id_index; instructions = take inner_len (drop (start + 1) is) })

-- `in`
abbrev pub is_in : List String → String → Bool
is_in [] a = false
is_in (x ∷ xs) a = str_eq x a || is_in xs a
