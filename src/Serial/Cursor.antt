-- ===== src/Serial/Cursor.antt =====
-- serialization.hpp: `ByteReader` with its buffer and its cursor.
pub mod Refine
use Prim.Native.Nat.{bit_or}
use Prim.Native.Nat.add
use native.Mathlib.Numerals.{add-one}
use cryptopeg.Prelude.{
  ℕ, zero, suc, ◌+◌, ◌-◌, ◌*◌, ◌^◌, ◌≤◌, ◌<◌, ◌≡◌, refl, sym, ap, arith, Bool, true, false, ◌||◌,
  List, [], ◌∷◌, none, some, ltb, leb, if◌then◌else◌, length, length-drop, take, drop, get_elem?,
  Bool-cases, le→ltb, le→leb, inl, inr,
}
use cryptopeg.Errors.{Error, Result, ok, err}
use cryptopeg.Errors
use cryptopeg.Serial
use cryptopeg.Serial.{Reader, max_serialized_string_bytes}

-- `data_`, of which `size_` is the length, and `cursor_`.
pub record ByteReader : Type 0 where
  pub bytes : List ℕ
  pub cursor : ℕ

abbrev pub Method : Type 0 → Type 0
Method A = ByteReader → Result (A × ByteReader)

infixl 5 ◌>>=◌ ◌>>◌
abbrev pub ◌>>=◌ : {A B : Type 0} → Method A → (A → Method B) → Method B
◌>>=◌ m f r = Errors.◌>>=◌ (m r) (λ p. f p.0 p.1)

abbrev pub ◌>>◌ : {A B : Type 0} → Method A → Method B → Method B
first >> rest = first >>= λ done. rest

abbrev pub throw_if : Bool → Error → Method (Unit {0})
throw_if c e r = Errors.◌>>=◌ (Errors.throw_if c e) (λ u. ok (u, r))

unfoldable pub require_remaining : ℕ → Method (Unit {0})
require_remaining len r =
    if ltb (length r.bytes) r.cursor || ltb (length r.bytes - r.cursor) len
    then err Error.read_past_end
    else ok (tt, r)

-- `data_[cursor_++]`
unfoldable pub next_byte : Method ℕ
next_byte r = elim (get_elem? r.bytes r.cursor) [
  | none ↦ err Error.out_of_bounds
  | some b ↦ ok (b, record r { cursor = r.cursor + 1 })
]

unfoldable pub read_le : ℕ → ℕ → ℕ → Method ℕ
read_le zero i val r = ok (val, r)
read_le (suc n) i val r =
    Errors.◌>>=◌ (next_byte r) (λ p. read_le n (i + 1) (bit_or val (p.0 * 2 ^ (i * 8))) p.1)

unfoldable pub read_u8 : Method ℕ
read_u8 = do require_remaining 1; read_le 1 0 0

unfoldable pub read_u32 : Method ℕ
read_u32 = do require_remaining 4; read_le 4 0 0

unfoldable pub read_u64 : Method ℕ
read_u64 = do require_remaining 8; read_le 8 0 0

-- `memcpy` of `len` bytes from the cursor.
abbrev pub copy : ℕ → Method (List ℕ)
copy len r = ok (take len (drop r.cursor r.bytes), record r { cursor = r.cursor + len })

unfoldable pub read_bytes : ℕ → Method (List ℕ)
read_bytes len = do require_remaining len; copy len

unfoldable pub read_string : Method (List ℕ)
read_string = do
  len ← read_u32
  throw_if (ltb max_serialized_string_bytes len) Error.string_over_limit
  read_bytes len

unfoldable pub remaining : Method ℕ
remaining r = ok (if leb r.cursor (length r.bytes) then length r.bytes - r.cursor else 0, r)

-- The bytes that the cursor has not reached.
abbrev pub unread : ByteReader → List ℕ
unread r = drop r.cursor r.bytes

abbrev pub IsInBounds : ByteReader → Type 0
IsInBounds r = r.cursor ≤ length r.bytes

-- The same value and the same bytes left, or the same exception.
abbrev pub Agree : {A : Type 0} → Result (A × ByteReader) → Result (A × List ℕ) → Type 0
Agree (ok (a, r)) (ok (b, bs)) = (a ≡ b) × (unread r ≡ bs) × IsInBounds r
Agree (ok _) (err e) = ⊥
Agree (err e) (ok _) = ⊥
Agree (err e) (err e') = e ≡ e'

abbrev pub Refines : {A : Type 0} → Method A → Reader A → Type 0
Refines m s = (r : ByteReader) → IsInBounds r → Agree (m r) (s (unread r))
