-- ===== src/Amount/Fees.antt =====
-- include/types.hpp: `safe_fee_calc` on amounts of 64 bits.
use cryptopeg.Prelude.{ℕ, ◌*◌, ◌/◌, ◌%◌, ◌^◌, ◌≤◌, ◌≡◌, arith}
use cryptopeg.Errors.{ok}
use cryptopeg.Amount.{IsAmount, max_transaction_amount, safe_fee_calc}

pub product_bound : (amount bps : ℕ) → bps ≤ 10000 → amount * bps ≤ amount * 10000
product_bound amount bps h = grind arith

-- The fee of `bps` basis points, rounded down, is at most the amount.
pub fee-le : (amount bps : ℕ) → bps ≤ 10000 → amount * bps / 10000 ≤ amount
fee-le amount bps h = omega (arith, product_bound amount bps h)

-- Neither the product in 128 bits nor the cast to 64 bits loses anything.
pub safe_fee_calc_exact :
    (amount bps : ℕ)
    → IsAmount amount
    → bps ≤ 10000
    → safe_fee_calc amount bps ≡ ok (amount * bps / 10000)
unfolding safe_fee_calc
safe_fee_calc_exact amount bps ha hb = ground (arith, product_bound amount bps hb, fits)
  where
    fits : amount * bps % 2 ^ 128 / 10000 % 2 ^ 64 ≡ amount * bps / 10000
    fits = omega (arith, product_bound amount bps hb)

-- The fee of a deposit, a withdrawal or a claim within the protocol's limit.
pub safe_fee_calc_limit :
    (amount bps : ℕ)
    → bps ≤ 10000
    → amount ≤ max_transaction_amount
    → safe_fee_calc amount bps ≡ ok (amount * bps / 10000)
safe_fee_calc_limit amount bps hb ha = safe_fee_calc_exact amount bps (omega arith) hb
