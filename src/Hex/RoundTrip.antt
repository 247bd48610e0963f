-- ===== src/Hex/RoundTrip.antt =====
-- Properties of the hexadecimal text of types.hpp.
use cryptopeg.Prelude.{ℕ, ◌*◌, ◌/◌, ◌%◌, ◌<◌, ◌≡◌, refl, true, List, [], ◌∷◌, arith, length, All}
use cryptopeg.Errors.{ok}
use cryptopeg.Hex.{hex_digit, to_hex, is_xdigit, digit_value, all_xdigit, hex_pairs, from_hex}

abbrev pub IsByte : ℕ → Type 0
IsByte b = b < 256

digit_value-hex_digit : (d : ℕ) → d < 16 → digit_value (hex_digit d) ≡ d
unfolding digit_value hex_digit
digit_value-hex_digit d h = ground arith

is_xdigit-hex_digit : (d : ℕ) → d < 16 → is_xdigit (hex_digit d) ≡ true
unfolding is_xdigit hex_digit
is_xdigit-hex_digit d h = ground arith

pub length-to_hex : (bs : List ℕ) → length (to_hex bs) ≡ 2 * length bs
unfolding to_hex
length-to_hex [] = omega arith
length-to_hex (b ∷ bs) = omega (arith, length-to_hex bs)

pub all_xdigit-to_hex : (bs : List ℕ) → All IsByte bs → all_xdigit (to_hex bs) ≡ true
unfolding to_hex all_xdigit
all_xdigit-to_hex [] h = refl
all_xdigit-to_hex (b ∷ bs) (hb, hs) = ground (
  arith,
  is_xdigit-hex_digit (b / 16) (omega arith),
  is_xdigit-hex_digit (b % 16) (omega arith),
  all_xdigit-to_hex bs hs,
)

hex_pairs-to_hex : (bs : List ℕ) → All IsByte bs → hex_pairs (to_hex bs) ≡ ok bs
unfolding to_hex hex_pairs
hex_pairs-to_hex [] h = refl
hex_pairs-to_hex (b ∷ bs) (hb, hs) = ground (
  arith,
  digit_value-hex_digit (b / 16) (omega arith),
  digit_value-hex_digit (b % 16) (omega arith),
  hex_pairs-to_hex bs hs,
)

-- `from_hex` reads back what `to_hex` printed of a list of bytes.
pub from_hex-to_hex : (bs : List ℕ) → All IsByte bs → from_hex (to_hex bs) ≡ ok bs
unfolding from_hex
from_hex-to_hex bs h =
    rw (length-to_hex bs, all_xdigit-to_hex bs h, hex_pairs-to_hex bs h) (ground arith)
