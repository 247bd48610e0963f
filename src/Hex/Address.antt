-- ===== src/Hex/Address.antt =====
-- include/types.hpp: the addresses that `is_valid_evm_address` accepts.
use cryptopeg.Prelude.{
  ℕ, ◌≡◌, ◌≢◌, ◌↔◌, ◌⊎◌, inl, inr, refl, ◌∙◌, Bool, true, false, ◌&&◌, ◌||◌, not, ◌==◌,
  if◌then◌else◌, arith, List, [], ◌∷◌, length, replicate, bytes_eq, bytes_eq_iff, Bool-cases,
}
use cryptopeg.Hex.{all_xdigit, evm_digits, is_valid_evm_address}

-- As many times the character '0'.
abbrev pub zeros : List ℕ → List ℕ
zeros cs = replicate (length cs) b'0'

evm_digits_lem :
    (all_zero : Bool) (cs : List ℕ)
    → evm_digits all_zero cs ≡ (all_xdigit cs && not (all_zero && bytes_eq cs (zeros cs)))
unfolding evm_digits all_xdigit bytes_eq
evm_digits_lem all_zero [] = ground arith
evm_digits_lem all_zero (c ∷ cs) = ground (arith, evm_digits_lem (all_zero && (c == b'0')) cs)

digits_there : (cs : List ℕ) → evm_digits true cs ≡ true → (all_xdigit cs ≡ true) × (cs ≢ zeros cs)
digits_there cs h = (
  ground (arith, evm_digits_lem true cs),
  λ e. ground (arith, evm_digits_lem true cs, bytes_eq_iff cs (zeros cs)),
)

digits_back : (cs : List ℕ) → all_xdigit cs ≡ true → cs ≢ zeros cs → evm_digits true cs ≡ true
digits_back cs digits apart = elim (Bool-cases (bytes_eq cs (zeros cs))) [
  | inl same ↦ absurd (apart ((bytes_eq_iff cs (zeros cs)).0 same))
  | inr other ↦ evm_digits_lem true cs ∙ rw (digits, other) refl
]

prefix_there :
    (a b n : ℕ) (rest : Bool)
    → (if not (n == 40)
        then false
        else if not (a == b'0') || (not (b == b'x') && not (b == b'X'))
        then false
        else rest)
      ≡ true
    → (n ≡ 40) × (a ≡ b'0') × ((b ≡ b'x') ⊎ (b ≡ b'X')) × (rest ≡ true)
prefix_there a b n rest h = ground arith

prefix_back :
    (a b n : ℕ) (rest : Bool)
    → n ≡ 40
    → a ≡ b'0'
    → (b ≡ b'x') ⊎ (b ≡ b'X')
    → rest ≡ true
    → (if not (n == 40)
        then false
        else if not (a == b'0') || (not (b == b'x') && not (b == b'X'))
        then false
        else rest)
      ≡ true
prefix_back a b n rest = ground arith

-- An address of two characters and the rest is valid exactly if these are `0x` or `0X` and the rest
-- is 40 hexadecimal digits, not all of them '0'.
pub is_valid_evm_address_lem :
    (a b : ℕ) (cs : List ℕ)
    → (is_valid_evm_address (a ∷ b ∷ cs) ≡ true) ↔ (
        (length cs ≡ 40)
        × (a ≡ b'0')
        × ((b ≡ b'x') ⊎ (b ≡ b'X'))
        × (all_xdigit cs ≡ true)
        × (cs ≢ zeros cs))
unfolding is_valid_evm_address
is_valid_evm_address_lem a b cs = (
  λ h.
      let (size, first, second, rest) = prefix_there a b (length cs) (evm_digits true cs) h in
      let (digits, apart) = digits_there cs rest in (size, first, second, digits, apart),
  λ t.
      let (size, first, second, digits, apart) = t in
      prefix_back a b (length cs) (evm_digits true cs) size first second
        (digits_back cs digits apart),
)
