-- ===== src/Amount.antt =====
-- include/types.hpp: amounts in micro-USDT (`uint64_t`), their checked arithmetic and the fees.
pub mod Fees
use cryptopeg.Prelude.{ℕ, ◌+◌, ◌-◌, ◌*◌, ◌/◌, ◌%◌, ◌^◌, ◌<◌, Option, none, some, ltb, if◌then◌else◌}
use cryptopeg.Errors.{Result, ok, err, fee_rate_too_high}

-- An amount is a number below `2 ^ 64`.
abbrev pub IsAmount : ℕ → Type 0
IsAmount a = a < 2 ^ 64

abbrev pub usdt_unit : ℕ
usdt_unit = 1_000_000

abbrev pub max_transaction_amount : ℕ
max_transaction_amount = 100_000_000_000_000

-- `none` is the return value false; the callers do not read `result` then.
unfoldable pub safe_add_amount : ℕ → ℕ → Option ℕ
safe_add_amount a b = if ltb (a + b) (2 ^ 64) then some (a + b) else none

unfoldable pub safe_sub_amount : ℕ → ℕ → Option ℕ
safe_sub_amount a b = if ltb a b then none else some (a - b)

-- The product has 128 bits, and the cast keeps 64 bits of the quotient.
unfoldable pub safe_fee_calc : ℕ → ℕ → Result ℕ
safe_fee_calc amount bps =
    if ltb 10000 bps then err fee_rate_too_high else ok (amount * bps % 2 ^ 128 / 10000 % 2 ^ 64)
