-- ===== src/Prelude/Bits.antt =====
-- `bit_or` of numbers whose digits do not overlap is their sum.
use Prim.Native.Nat.{
  ℕ, zero, suc, ◌+◌, ◌*◌, ◌/◌, ◌%◌, ◌^◌, ◌≤◌, ◌<◌, max, bit_or, digits, bit_or-bitwise,
}
use mathlib.Core.Path.{◌≡◌, refl, ap}
use native.Mathlib.Omega.{arith}
use native.Mathlib.Nat.{pow-suc}

-- The recursion on digits that `bit_or` stands for, with fuel `n`.
abbrev or_digits : ℕ → ℕ → ℕ → ℕ
or_digits n a b = digits (λ b. b) max n a b

or_digits_fuel : (a b n m : ℕ) → a ≤ m → a ≤ n → or_digits n a b ≡ or_digits m a b
or_digits_fuel zero b zero zero enough enough' = refl
or_digits_fuel zero b (suc n) zero enough enough' = refl
or_digits_fuel zero b zero (suc m) enough enough' = refl
or_digits_fuel zero b (suc n) (suc m) enough enough' = refl
or_digits_fuel (suc a) b zero m enough enough' = absurd (omega arith)
or_digits_fuel (suc a) b (suc n) zero enough enough' = absurd (omega arith)
or_digits_fuel (suc a) b (suc n) (suc m) enough enough' =
    omega (arith, or_digits_fuel (suc a / 2) (b / 2) n m (omega arith) (omega arith))

zero-bit_or : (b : ℕ) → bit_or 0 b ≡ b
zero-bit_or b = bit_or-bitwise 0 b

-- One digit at a time.
bit_or_step : (a b : ℕ) → bit_or a b ≡ bit_or (a / 2) (b / 2) * 2 + max (a % 2) (b % 2)
bit_or_step zero b = omega (arith, zero-bit_or b, zero-bit_or (b / 2))
bit_or_step (suc a) b = omega (
  arith,
  bit_or-bitwise (suc a) b,
  bit_or-bitwise (suc a / 2) (b / 2),
  or_digits_fuel (suc a / 2) (b / 2) a (suc a / 2) (omega arith) (omega arith),
)

double_pow : (k b : ℕ) → b * 2 ^ suc k ≡ 2 * (b * 2 ^ k)
double_pow k b = omega (arith, ap (λ (t : ℕ). b * t) (pow-suc 2 k))

-- `a | (b << k)` for `a` below `2 ^ k`.
pub bit_or_shift : (k a b : ℕ) → a < 2 ^ k → bit_or a (b * 2 ^ k) ≡ a + b * 2 ^ k
bit_or_shift zero zero b h = omega (arith, zero-bit_or (b * 2 ^ 0))
bit_or_shift zero (suc a) b h = absurd (omega arith)
bit_or_shift (suc k) a b h = omega (
  arith,
  bit_or_step a (b * 2 ^ suc k),
  double_pow k b,
  pow-suc 2 k,
  ap (λ (t : ℕ). bit_or (a / 2) t) halved,
  bit_or_shift k (a / 2) b (omega (arith, pow-suc 2 k)),
)
  where
    halved : b * 2 ^ suc k / 2 ≡ b * 2 ^ k
    halved = omega (arith, double_pow k b)
