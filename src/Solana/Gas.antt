-- ===== src/Solana/Gas.antt =====
-- solana/gas.go: `CreateGasAndJitoByGasFee`, the price of the compute units and the fee.
use greet.Base.{
  ℕ, ◌+◌, ◌-◌, ◌*◌, ◌/◌, ◌%◌, ◌^◌, ◌≤◌, ◌<◌, ◌==◌, ◌≡◌, if◌then◌else◌, List, [], ◌∷◌, Result, ok,
  ◌>>=◌, ap, arith,
}
use greet.Solana.Types.{Instruction, Manager}

-- `(gasFeeInLamport - GasPerSignature) * 1e6 / uint64(cuLimit)` in uint64.
abbrev pub unit_price : ℕ → ℕ → ℕ
unit_price cu gas_fee = ((gas_fee + 2 ^ 64 - 5000) % 2 ^ 64 * 1000000) % 2 ^ 64 / cu

-- The instructions and the fee; the two flags are not used. The limits are not zero.
unfoldable pub create_gas : Manager → ℕ → ℕ → Result (List Instruction × ℕ)
create_gas tm cu gas_fee = if unit_price cu gas_fee == 0 then ok ([], gas_fee) else (do
  price ← tm.build (Instruction.set_unit_price (unit_price cu gas_fee))
  limit ← tm.build (Instruction.set_unit_limit cu)
  ok (price ∷ limit ∷ [], gas_fee))

-- The price of a fee between that of a signature and 18 million million lamports: the price times
-- the units is the fee beyond the signature, rounded down to whole units of price.
pub unit_price_lem :
    (cu gas_fee : ℕ)
    → 5000 ≤ gas_fee
    → gas_fee < 18000000000000
    → unit_price cu gas_fee ≡ (gas_fee - 5000) * 1000000 / cu
unit_price_lem cu gas_fee low high =
    let e : ((gas_fee + 2 ^ 64 - 5000) % 2 ^ 64 * 1000000) % 2 ^ 64 ≡ (gas_fee - 5000) * 1000000 =
      omega arith in
    ap (λ n. n / cu) e
