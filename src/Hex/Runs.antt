-- ===== src/Hex/Runs.antt =====
-- Runs of the hexadecimal text, and its theorem at a concrete input.
use cryptopeg.Prelude.{ℕ, ◌≡◌, refl, false, arith, List, [], ◌∷◌}
use cryptopeg.Errors.{Error, ok, err}
use cryptopeg.Hex.{
  to_hex, all_xdigit, hex_pairs, from_hex, evm_digits, is_xdigit, is_valid_evm_address,
}
use cryptopeg.Hex.RoundTrip.{from_hex-to_hex}
use cryptopeg.Prelude.{◌↔◌, ◌≢◌, ◌⊎◌, true, replicate, length}
use cryptopeg.Hex.Address.{zeros, is_valid_evm_address_lem}

abbrev bytes : List ℕ
bytes = 0 ∷ 175 ∷ 255 ∷ []

-- Capital digits are read as well.
from_hex_run : from_hex (b'0' ∷ b'0' ∷ b'A' ∷ b'f' ∷ []) ≡ ok (0 ∷ 175 ∷ [])
unfolding from_hex all_xdigit hex_pairs
from_hex_run = refl

odd_run : from_hex (b'0' ∷ []) ≡ err Error.odd_hex_length
unfolding from_hex
odd_run = refl

short_address_run : is_valid_evm_address (b'0' ∷ b'x' ∷ []) ≡ false
unfolding is_valid_evm_address
short_address_run = refl

from_hex-to_hex_example : from_hex (to_hex bytes) ≡ ok bytes
from_hex-to_hex_example = from_hex-to_hex bytes (omega arith)

abbrev zero_char : ℕ
zero_char = b'0'

abbrev x_char : ℕ
x_char = b'x'

-- "ff…ff", 40 digits.
abbrev ones : List ℕ
ones = replicate 40 b'f'

address_run : is_valid_evm_address (b'0' ∷ b'X' ∷ ones) ≡ true
unfolding is_valid_evm_address evm_digits is_xdigit
address_run = refl

zero_address_run : is_valid_evm_address (b'0' ∷ b'x' ∷ zeros ones) ≡ false
unfolding is_valid_evm_address evm_digits is_xdigit
zero_address_run = refl

is_valid_evm_address_lem_example : (is_valid_evm_address (zero_char ∷ x_char ∷ ones) ≡ true) ↔ (
    (length ones ≡ 40)
    × (zero_char ≡ b'0')
    × ((x_char ≡ b'x') ⊎ (x_char ≡ b'X'))
    × (all_xdigit ones ≡ true)
    × (ones ≢ zeros ones))
is_valid_evm_address_lem_example = is_valid_evm_address_lem zero_char x_char ones
