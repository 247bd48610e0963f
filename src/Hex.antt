-- ===== src/Hex.antt =====
-- include/types.hpp: hexadecimal text and EVM addresses. A `std::string` is the list of its bytes.
pub mod RoundTrip
pub mod Address
mod Runs
use cryptopeg.Prelude.{
  ℕ, ◌+◌, ◌-◌, ◌*◌, ◌/◌, ◌%◌, Bool, true, false, ◌&&◌, ◌||◌, not, List, [], ◌∷◌, ltb, leb, ◌==◌,
  if◌then◌else◌, length,
}
use cryptopeg.Errors.{
  Result, ok, err, ◌>>=◌, ◌>>◌, throw_if, odd_hex_length, bad_hex_character, bad_hex_byte,
}

-- The digit that `std::hex` prints for a number below 16.
unfoldable pub hex_digit : ℕ → ℕ
hex_digit d = if ltb d 10 then b'0' + d else b'a' + (d - 10)

-- `std::setw(2) << std::setfill('0')`: two digits for every byte.
unfoldable pub to_hex : List ℕ → List ℕ
unfolding hex_digit
to_hex [] = []
to_hex (b ∷ bs) = hex_digit (b / 16) ∷ hex_digit (b % 16) ∷ to_hex bs

-- `std::isxdigit`
unfoldable pub is_xdigit : ℕ → Bool
is_xdigit c = (leb b'0' c && leb c b'9') || (leb b'a' c && leb c b'f') || (leb b'A' c && leb c b'F')

-- The value of a digit, as `std::stoul` with base 16 reads it.
unfoldable pub digit_value : ℕ → ℕ
digit_value c = if leb c b'9' then c - b'0' else if leb c b'F' then c - b'A' + 10 else c - b'a' + 10

unfoldable pub all_xdigit : List ℕ → Bool
unfolding is_xdigit
all_xdigit [] = true
all_xdigit (c ∷ cs) = is_xdigit c && all_xdigit cs

-- The loop over pairs. `std::stoul` has read both characters, since both are digits; a single
-- character at the end, where the length is even, does not occur (`idx != 2`).
unfoldable pub hex_pairs : List ℕ → Result (List ℕ)
unfolding digit_value
hex_pairs [] = ok []
hex_pairs (c ∷ []) = err bad_hex_byte
hex_pairs (c ∷ d ∷ cs) = hex_pairs cs >>= λ bytes. ok ((digit_value c * 16 + digit_value d) ∷ bytes)

unfoldable pub from_hex : List ℕ → Result (List ℕ)
from_hex hex = do
  throw_if (not (length hex % 2 == 0)) odd_hex_length
  throw_if (not (all_xdigit hex)) bad_hex_character
  hex_pairs hex

-- The loop of `is_valid_evm_address` from the third character on: whether all are digits, and one
-- is not '0'.
unfoldable pub evm_digits : Bool → List ℕ → Bool
unfolding is_xdigit
evm_digits all_zero [] = not all_zero
evm_digits all_zero (c ∷ cs) =
    let rest = evm_digits (all_zero && (c == b'0')) cs in if is_xdigit c then rest else false

-- 42 characters, `0x` or `0X`, 40 hexadecimal digits, and not address 0.
unfoldable pub is_valid_evm_address : List ℕ → Bool
is_valid_evm_address [] = false
is_valid_evm_address (a ∷ []) = false
is_valid_evm_address (a ∷ b ∷ cs) =
    if not (length cs == 40)
    then false
    else if not (a == b'0') || (not (b == b'x') && not (b == b'X'))
    then false
    else evm_digits true cs
