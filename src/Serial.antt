-- ===== src/Serial.antt =====
-- include/serialization.hpp: `ByteWriter` and `ByteReader`.
-- A writer is its buffer. A reader is the bytes that its cursor has not reached; Serial/Cursor has the
-- reader with its buffer and cursor, and its methods are these.
pub mod Format
pub mod Cursor
pub mod BigEndian
mod Runs
use Prim.Native.Nat.{bit_or}
use cryptopeg.Prelude.{
  ℕ, zero, suc, ◌+◌, ◌-◌, ◌*◌, ◌/◌, ◌%◌, ◌^◌, Bool, List, [], ◌∷◌, ◌++◌, ltb, if◌then◌else◌, length,
  take, drop,
}
use cryptopeg.Errors.{Error, Result, ok, err}
use cryptopeg.Errors

abbrev pub max_serialized_string_bytes : ℕ
max_serialized_string_bytes = 64 * 1024

abbrev pub ByteWriter : Type 0
ByteWriter = List ℕ

unfoldable pub write_u8 : ByteWriter → ℕ → ByteWriter
write_u8 w val = w ++ (val ∷ [])

-- `for (i = …; …; ++i) push_back((val >> (i * 8)) & 0xFF)` with `n` rounds left.
unfoldable pub write_le : ℕ → ℕ → ByteWriter → ℕ → ByteWriter
write_le zero i w val = w
write_le (suc n) i w val = write_le n (i + 1) (w ++ (val / 2 ^ (i * 8) % 256 ∷ [])) val

unfoldable pub write_u32 : ByteWriter → ℕ → ByteWriter
write_u32 = write_le 4 0

unfoldable pub write_u64 : ByteWriter → ℕ → ByteWriter
write_u64 = write_le 8 0

-- `write_bytes` and `write_array`
unfoldable pub write_bytes : ByteWriter → List ℕ → ByteWriter
write_bytes w bytes = w ++ bytes

unfoldable pub write_string : ByteWriter → List ℕ → Result ByteWriter
write_string w str =
    if ltb (2 ^ 32 - 1) (length str)
    then err Error.string_too_large
    else ok (write_bytes (write_u32 w (length str)) str)

-- A method of the reader. After a `throw` the reader is gone, as is all that was built.
abbrev pub Reader {ℓ} : Type ℓ → Type ℓ
Reader A = List ℕ → Result (A × List ℕ)

infixl 5 ◌>>=◌ ◌>>◌
abbrev pub ◌>>=◌ {ℓ κ} : {A : Type ℓ} {B : Type κ} → Reader A → (A → Reader B) → Reader B
◌>>=◌ m f bs = Errors.◌>>=◌ (m bs) (λ p. f p.0 p.1)

abbrev pub ◌>>◌ {ℓ κ} : {A : Type ℓ} {B : Type κ} → Reader A → Reader B → Reader B
first >> rest = first >>= λ done. rest

abbrev pub pure {ℓ} : {A : Type ℓ} → A → Reader A
pure a bs = ok (a, bs)

abbrev pub throw_if : Bool → Error → Reader (Unit {0})
throw_if c e bs = Errors.◌>>=◌ (Errors.throw_if c e) (λ u. ok (u, bs))

-- The number of bytes left.
abbrev pub remaining : Reader ℕ
remaining bs = ok (length bs, bs)

unfoldable pub require_remaining : ℕ → Reader (Unit {0})
require_remaining len bs = if ltb (length bs) len then err Error.read_past_end else ok (tt, bs)

-- `val |= data_[cursor_++] << (i * 8)`, with `n` rounds left. The check before the loop
-- rules out that it meets the end.
unfoldable pub read_le : ℕ → ℕ → ℕ → Reader ℕ
read_le zero i val bs = ok (val, bs)
read_le (suc n) i val [] = err Error.out_of_bounds
read_le (suc n) i val (b ∷ bs) = read_le n (i + 1) (bit_or val (b * 2 ^ (i * 8))) bs

unfoldable pub read_u8 : Reader ℕ
read_u8 = do require_remaining 1; read_le 1 0 0

unfoldable pub read_u32 : Reader ℕ
read_u32 = do require_remaining 4; read_le 4 0 0

unfoldable pub read_u64 : Reader ℕ
read_u64 = do require_remaining 8; read_le 8 0 0

-- `read_bytes` and `read_array`
unfoldable pub read_bytes : ℕ → Reader (List ℕ)
read_bytes len = do require_remaining len; λ bs. ok (take len bs, drop len bs)

unfoldable pub read_string : Reader (List ℕ)
read_string = do
  len ← read_u32
  throw_if (ltb max_serialized_string_bytes len) Error.string_over_limit
  read_bytes len

-- `for (i = 0; i < n; ++i) list.push_back(read(r));`
unfoldable pub read_many {ℓ} : {A : Type ℓ} → ℕ → Reader A → Reader (List A)
read_many zero read = pure []
read_many (suc n) read = do x ← read; xs ← read_many n read; pure (x ∷ xs)

-- `for (const auto& x : xs) write(w, x);`, for a `write` that may throw, and for one that does not.
unfoldable pub write_each {ℓ} :
    {A : Type ℓ} → (ByteWriter → A → Result ByteWriter) → ByteWriter → List A → Result ByteWriter
write_each write w [] = ok w
write_each write w (x ∷ xs) = Errors.◌>>=◌ (write w x) (λ w'. write_each write w' xs)

unfoldable pub write_all {ℓ} :
    {A : Type ℓ} → (ByteWriter → A → ByteWriter) → ByteWriter → List A → ByteWriter
write_all write w [] = w
write_all write w (x ∷ xs) = write_all write (write w x) xs
