-- ===== src/Serial/BigEndian.antt =====
-- serialization.hpp: the keys of heights in the database, whose bytes in memory compare like the
-- heights. The machine is little-endian.
use Prim.Native.Nat.{bit_or}
use native.Mathlib.Nat.{mul-le-mul_left, mul_comm, add-mul, mod-lt, mod-eq_of_lt}
use cryptopeg.Prelude.{
  ℕ, zero, suc, ◌+◌, ◌*◌, ◌/◌, ◌%◌, ◌^◌, ◌≤◌, ◌<◌, ◌≡◌, refl, ◌∙◌, Bool, true, false, arith, All,
  List, [], ◌∷◌, ltb, if◌then◌else◌,
}
use cryptopeg.Prelude.Bits.{bit_or_shift}
use cryptopeg.Serial.Format.{u64_bytes, le_bytes}
use cryptopeg.Quorum.{lex_lt}

-- Byte `i` of a number: masked, and shifted to the lowest place.
abbrev pub byte : ℕ → ℕ → ℕ
byte i val = val / 2 ^ (i * 8) % 256

-- Each byte is masked and shifted to the opposite place.
unfoldable pub to_big_endian_64 : ℕ → ℕ
to_big_endian_64 val =
    let v₁ = bit_or (byte 7 val) (byte 6 val * 2 ^ 8) in
    let v₂ = bit_or v₁ (byte 5 val * 2 ^ 16) in
    let v₃ = bit_or v₂ (byte 4 val * 2 ^ 24) in
    let v₄ = bit_or v₃ (byte 3 val * 2 ^ 32) in
    let v₅ = bit_or v₄ (byte 2 val * 2 ^ 40) in
    let v₆ = bit_or v₅ (byte 1 val * 2 ^ 48) in bit_or v₆ (byte 0 val * 2 ^ 56)

unfoldable pub from_big_endian_64 : ℕ → ℕ
from_big_endian_64 val = to_big_endian_64 val

-- The bytes of two numbers joined in their places.
join : (k a b c : ℕ) → a ≡ c → c < 2 ^ k → bit_or a (b * 2 ^ k) ≡ c + b * 2 ^ k
join k a b c e h = rw e (bit_or_shift k c b h)

to_big_endian_64_sum :
    (val : ℕ)
    → to_big_endian_64 val
      ≡ byte 7 val
        + byte 6 val * 2 ^ 8
        + byte 5 val * 2 ^ 16
        + byte 4 val * 2 ^ 24
        + byte 3 val * 2 ^ 32
        + byte 2 val * 2 ^ 40
        + byte 1 val * 2 ^ 48
        + byte 0 val * 2 ^ 56
unfolding to_big_endian_64
to_big_endian_64_sum val =
    let e₁ = bit_or_shift 8 (byte 7 val) (byte 6 val) (omega arith) in
    let e₂ = join 16 _ (byte 5 val) _ e₁ (omega arith) in
    let e₃ = join 24 _ (byte 4 val) _ e₂ (omega arith) in
    let e₄ = join 32 _ (byte 3 val) _ e₃ (omega arith) in
    let e₅ = join 40 _ (byte 2 val) _ e₄ (omega arith) in
    let e₆ = join 48 _ (byte 1 val) _ e₅ (omega arith) in join 56 _ (byte 0 val) _ e₆ (omega arith)

pub to_big_endian_64-lt : (val : ℕ) → to_big_endian_64 val < 2 ^ 64
to_big_endian_64-lt val = rw (to_big_endian_64_sum val) (omega arith)

-- A number made of eight bytes, the lowest first.
abbrev packed : ℕ → ℕ → ℕ → ℕ → ℕ → ℕ → ℕ → ℕ → ℕ
packed a b c d e f g h =
    a + b * 2 ^ 8 + c * 2 ^ 16 + d * 2 ^ 24 + e * 2 ^ 32 + f * 2 ^ 40 + g * 2 ^ 48 + h * 2 ^ 56

packed_bytes :
    (a b c d e f g h : ℕ)
    → All (λ k. k < 256) (a ∷ b ∷ c ∷ d ∷ e ∷ f ∷ g ∷ h ∷ [])
    → let n = packed a b c d e f g h in
      (byte 0 n ≡ a)
      × (byte 1 n ≡ b)
      × (byte 2 n ≡ c)
      × (byte 3 n ≡ d)
      × (byte 4 n ≡ e)
      × (byte 5 n ≡ f)
      × (byte 6 n ≡ g)
      × (byte 7 n ≡ h)
packed_bytes a b c d e f g h k = omega arith

-- The bytes of a key are those of the number, in the opposite order.
module _ (val : ℕ) where
  swapped_bytes :
      let n = to_big_endian_64 val in
      (byte 0 n ≡ byte 7 val)
      × (byte 1 n ≡ byte 6 val)
      × (byte 2 n ≡ byte 5 val)
      × (byte 3 n ≡ byte 4 val)
      × (byte 4 n ≡ byte 3 val)
      × (byte 5 n ≡ byte 2 val)
      × (byte 6 n ≡ byte 1 val)
      × (byte 7 n ≡ byte 0 val)
  swapped_bytes = rw (to_big_endian_64_sum val) (
      packed_bytes (byte 7 val) (byte 6 val) (byte 5 val) (byte 4 val) (byte 3 val) (byte 2 val)
        (byte 1 val) (byte 0 val) (omega arith))

from_big_endian_64-to_big_endian_64 :
    (val : ℕ) → val < 2 ^ 64 → from_big_endian_64 (to_big_endian_64 val) ≡ val
unfolding from_big_endian_64
from_big_endian_64-to_big_endian_64 val h =
    let (e₀, e₁, e₂, e₃, e₄, e₅, e₆, e₇) = swapped_bytes val in
    to_big_endian_64_sum (to_big_endian_64 val) ∙ omega (arith, e₀, e₁, e₂, e₃, e₄, e₅, e₆, e₇)

-- The bytes of a number, highest first.
abbrev be_bytes : ℕ → ℕ → List ℕ
be_bytes zero val = []
be_bytes (suc n) val = byte n val ∷ be_bytes n val

u64_bytes-to_big_endian_64 : (val : ℕ) → u64_bytes (to_big_endian_64 val) ≡ be_bytes 8 val
unfolding u64_bytes le_bytes
u64_bytes-to_big_endian_64 val =
    let (e₀, e₁, e₂, e₃, e₄, e₅, e₆, e₇) = swapped_bytes val in cc (e₀, e₁, e₂, e₃, e₄, e₅, e₆, e₇)

product_below : (a b p : ℕ) → a < b → a * p + p ≤ b * p
product_below a b p h =
    omega (arith, mul-le-mul_left p above, mul_comm p b, mul_comm p (a + 1), add-mul a 1 p)
  where
    above : a + 1 ≤ b
    above = omega arith

lex_step :
    (a b p x y : ℕ)
    → x < p
    → y < p
    → (if ltb a b then true else if ltb b a then false else ltb x y) ≡ ltb (a * p + x) (b * p + y)
lex_step a b p x y hx hy = ground (arith, product_below a b p, product_below b a p)

-- The number below `p * 256`, by its digit in the place of `p` and what is below.
abbrev IsSplit : ℕ → ℕ → Type 0
IsSplit p x = x % (p * 256) ≡ x / p % 256 * p + x % p

module _ (x y : ℕ) where
  place :
      (p : ℕ) (rest : Bool)
      → 1 ≤ p
      → IsSplit p x
      → IsSplit p y
      → rest ≡ ltb (x % p) (y % p)
      → (if ltb (x / p % 256) (y / p % 256)
          then true
          else if ltb (y / p % 256) (x / p % 256)
          then false
          else rest)
        ≡ ltb (x % (p * 256)) (y % (p * 256))
  place p rest some_place sx sy e =
      rw (e, sx, sy)
        (lex_step (x / p % 256) (y / p % 256) p (x % p) (y % p) (mod-lt x some_place)
          (mod-lt y some_place))

  next_place :
      (n : ℕ)
      → IsSplit (2 ^ (n * 8)) x
      → IsSplit (2 ^ (n * 8)) y
      → 1 ≤ 2 ^ (n * 8)
      → lex_lt (be_bytes n x) (be_bytes n y) ≡ ltb (x % 2 ^ (n * 8)) (y % 2 ^ (n * 8))
      → lex_lt (be_bytes (suc n) x) (be_bytes (suc n) y)
        ≡ ltb (x % (2 ^ (n * 8) * 256)) (y % (2 ^ (n * 8) * 256))
  unfolding lex_lt
  next_place n sx sy some_place e =
      place (2 ^ (n * 8)) (lex_lt (be_bytes n x) (be_bytes n y)) some_place sx sy e

  lex_lt-be_bytes : lex_lt (be_bytes 8 x) (be_bytes 8 y) ≡ ltb (x % 2 ^ 64) (y % 2 ^ 64)
  unfolding lex_lt
  lex_lt-be_bytes =
      let l₁ = next_place 0 (omega arith) (omega arith) (omega arith) (ground arith) in
      let l₂ = next_place 1 (omega arith) (omega arith) (omega arith) l₁ in
      let l₃ = next_place 2 (omega arith) (omega arith) (omega arith) l₂ in
      let l₄ = next_place 3 (omega arith) (omega arith) (omega arith) l₃ in
      let l₅ = next_place 4 (omega arith) (omega arith) (omega arith) l₄ in
      let l₆ = next_place 5 (omega arith) (omega arith) (omega arith) l₅ in
      let l₇ = next_place 6 (omega arith) (omega arith) (omega arith) l₆ in
      next_place 7 (omega arith) (omega arith) (omega arith) l₇

-- The keys of two heights compare, byte by byte as they stand in memory, like the heights, and a
-- height is read back from its key.
pub to_big_endian_64_lem :
    (x y : ℕ)
    → x < 2 ^ 64
    → y < 2 ^ 64
    → (lex_lt (u64_bytes (to_big_endian_64 x)) (u64_bytes (to_big_endian_64 y)) ≡ ltb x y)
      × (from_big_endian_64 (to_big_endian_64 x) ≡ x)
to_big_endian_64_lem x y hx hy = (
  rw
      (
        u64_bytes-to_big_endian_64 x,
        u64_bytes-to_big_endian_64 y,
        lex_lt-be_bytes x y,
        mod-eq_of_lt hx,
        mod-eq_of_lt hy,
      )
      refl,
  from_big_endian_64-to_big_endian_64 x hx,
)
