-- ===== src/Serial/Format.antt =====
-- serialization.hpp: what the writer writes, as a format, and that the reader reads it back.
use native.Mathlib.Nat.{div-add-mod, div-eq_of_lt, div-div-eq-div-mul}
use native.Mathlib.Numerals.{towards_suc}
use mathlib.Core.List.{append-nil, append_assoc}
use cryptopeg.Prelude.{
  ℕ, zero, suc, ◌+◌, ◌-◌, ◌*◌, ◌/◌, ◌%◌, ◌^◌, ◌≤◌, ◌<◌, ◌≡◌, refl, sym, ap, ◌∙◌, arith, List, [],
  ◌∷◌, ◌++◌, length, length-append, All, le→ltb, take-append, drop-append,
}
use cryptopeg.Prelude.Bits.{bit_or_shift}
use cryptopeg.Errors.{Result, ok}
use cryptopeg.Serial.{
  ByteWriter, Reader, max_serialized_string_bytes, write_le, write_u32, write_u64, write_bytes,
  write_string, read_le, read_u32, read_u64, read_bytes, read_string, require_remaining, read_many,
  write_each, write_all,
}

-- The bytes of a number from byte `i` on, lowest first.
unfoldable pub le_bytes : ℕ → ℕ → ℕ → List ℕ
le_bytes zero i val = []
le_bytes (suc n) i val = (val / 2 ^ (i * 8) % 256) ∷ le_bytes n (i + 1) val

unfoldable pub u32_bytes : ℕ → List ℕ
u32_bytes = le_bytes 4 0

unfoldable pub u64_bytes : ℕ → List ℕ
u64_bytes = le_bytes 8 0

unfoldable pub string_bytes : List ℕ → List ℕ
string_bytes str = u32_bytes (length str) ++ str

pub length-le_bytes : (n i val : ℕ) → length (le_bytes n i val) ≡ n
unfolding le_bytes
length-le_bytes zero i val = refl
length-le_bytes (suc n) i val = ap suc (length-le_bytes n (i + 1) val)

write_le-append : (n i : ℕ) (w : ByteWriter) (val : ℕ) → write_le n i w val ≡ w ++ le_bytes n i val
unfolding write_le le_bytes
write_le-append zero i w val = sym (append-nil w)
write_le-append (suc n) i w val = rw (write_le-append n (i + 1), append_assoc)

pub write_u32-append : (w : ByteWriter) (val : ℕ) → write_u32 w val ≡ w ++ u32_bytes val
unfolding write_u32 u32_bytes
write_u32-append w val = write_le-append 4 0 w val

pub write_u64-append : (w : ByteWriter) (val : ℕ) → write_u64 w val ≡ w ++ u64_bytes val
unfolding write_u64 u64_bytes
write_u64-append w val = write_le-append 8 0 w val

pub write_string-append :
    (w : ByteWriter) (str : List ℕ)
    → length str < 2 ^ 32
    → write_string w str ≡ ok (w ++ string_bytes str)
unfolding write_string string_bytes write_bytes
write_string-append w str h =
    rw (le→ltb (2 ^ 32 - 1) (length str) (omega arith)) rw
      (write_u32-append w (length str), append_assoc) refl

-- 2 ^ ((i + 1) * 8) is 256 times 2 ^ (i * 8).
byte_pow : (i : ℕ) → 2 ^ ((i + 1) * 8) ≡ 2 ^ (i * 8) * 256
byte_pow i = ap (λ (t : ℕ). 2 ^ t) shifted ∙ eight (i * 8)
  where
    shifted : (i + 1) * 8 ≡ i * 8 + 8
    shifted = omega arith

    eight : (s : ℕ) → 2 ^ (s + 8) ≡ 2 ^ s * 256
    eight s = simp towards_suc (omega arith)

-- One byte of `val`: `p` is the weight of the byte, `acc` what is below.
module _ (p acc val : ℕ) (below : acc < p) (split : acc + val / p * p ≡ val) where
  next_below : acc + val / p % 256 * p < p * 256
  next_below = grind arith

  next_split : acc + val / p % 256 * p + val / (p * 256) * (p * 256) ≡ val
  next_split = omega (
    arith,
    ap (λ (t : ℕ). t * (p * 256)) (div-div-eq-div-mul val p 256),
    ap (λ (t : ℕ). t * p) (div-add-mod (val / p) 256),
  )

read_le-le_bytes :
    (n i j acc val : ℕ) (t : List ℕ)
    → i + n ≡ j
    → acc < 2 ^ (i * 8)
    → acc + val / 2 ^ (i * 8) * 2 ^ (i * 8) ≡ val
    → val < 2 ^ (j * 8)
    → read_le n i acc (le_bytes n i val ++ t) ≡ ok (val, t)
unfolding read_le le_bytes
read_le-le_bytes zero i j acc val t e below split h = ap (λ (k : ℕ). ok (k, t)) whole
  where
    small : val < 2 ^ (i * 8)
    small = let e' : j ≡ i = omega arith in rw e' at h

    whole : acc ≡ val
    whole = omega (arith, ap (λ (k : ℕ). k * 2 ^ (i * 8)) (div-eq_of_lt small))
read_le-le_bytes (suc n) i j acc val t e below split h =
    rw (bit_or_shift (i * 8) acc (val / 2 ^ (i * 8) % 256) below) (
      read_le-le_bytes n (i + 1) j (acc + val / 2 ^ (i * 8) % 256 * 2 ^ (i * 8)) val t (omega arith)
        (rw (byte_pow i) (next_below (2 ^ (i * 8)) acc val below split))
        (rw (byte_pow i) (next_split (2 ^ (i * 8)) acc val below split)) h)

-- Reading a number back needs as many bytes as were written.
require_remaining-append :
    (n : ℕ) (xs t : List ℕ) → n ≤ length xs → require_remaining n (xs ++ t) ≡ ok (tt, xs ++ t)
unfolding require_remaining
require_remaining-append n xs t h =
    rw (le→ltb (length (xs ++ t)) n (omega (arith, length-append xs t))) refl

pub read_u32-u32_bytes :
    (val : ℕ) (t : List ℕ) → val < 2 ^ 32 → read_u32 (u32_bytes val ++ t) ≡ ok (val, t)
unfolding read_u32 u32_bytes
read_u32-u32_bytes val t h =
    rw (require_remaining-append 4 (le_bytes 4 0 val) t (omega (arith, length-le_bytes 4 0 val)))
      (read_le-le_bytes 4 0 4 0 val t refl (omega arith) (omega arith) h)

pub read_u64-u64_bytes :
    (val : ℕ) (t : List ℕ) → val < 2 ^ 64 → read_u64 (u64_bytes val ++ t) ≡ ok (val, t)
unfolding read_u64 u64_bytes
read_u64-u64_bytes val t h =
    rw (require_remaining-append 8 (le_bytes 8 0 val) t (omega (arith, length-le_bytes 8 0 val)))
      (read_le-le_bytes 8 0 8 0 val t refl (omega arith) (omega arith) h)

pub read_bytes-append :
    (n : ℕ) (xs t : List ℕ) → length xs ≡ n → read_bytes n (xs ++ t) ≡ ok (xs, t)
unfolding read_bytes
read_bytes-append n xs t h =
    rw (require_remaining-append n xs t (omega arith), take-append n xs t h, drop-append n xs t h)
      refl

pub read_string-string_bytes :
    (str t : List ℕ)
    → length str ≤ max_serialized_string_bytes
    → read_string (string_bytes str ++ t) ≡ ok (str, t)
unfolding read_string string_bytes
read_string-string_bytes str t h =
    rw
      (
        append_assoc,
        read_u32-u32_bytes (length str) (str ++ t) (omega arith),
        le→ltb max_serialized_string_bytes (length str) h,
        read_bytes-append (length str) str t refl,
      )
      refl

-- The formats of the elements, one after the other.
unfoldable pub list_bytes {ℓ} : {A : Type ℓ} → (A → List ℕ) → List A → List ℕ
list_bytes bytes [] = []
list_bytes bytes (x ∷ xs) = bytes x ++ list_bytes bytes xs

module _ {ℓ} {A : Type ℓ} (bytes : A → List ℕ) where
  pub write_all-append :
      (write : ByteWriter → A → ByteWriter)
      → ((w : ByteWriter) (x : A) → write w x ≡ w ++ bytes x)
      → (w : ByteWriter) (xs : List A) → write_all write w xs ≡ w ++ list_bytes bytes xs
  unfolding write_all list_bytes
  write_all-append write each w [] = sym (append-nil w)
  write_all-append write each w (x ∷ xs) =
      rw (each, write_all-append write each (w ++ bytes x) xs, append_assoc)

module _ {ℓ κ} {A : Type ℓ} (P : A → Type κ) (bytes : A → List ℕ) where
  pub write_each-append :
      (write : ByteWriter → A → Result ByteWriter)
      → ((w : ByteWriter) (x : A) → P x → write w x ≡ ok (w ++ bytes x))
      → (w : ByteWriter) (xs : List A) → All P xs
      → write_each write w xs ≡ ok (w ++ list_bytes bytes xs)
  unfolding write_each list_bytes
  write_each-append write each w [] h = ap ok (sym (append-nil w))
  write_each-append write each w (x ∷ xs) (hx, hs) =
      rw (each w x hx, write_each-append write each (w ++ bytes x) xs hs, append_assoc)

  pub read_many-list_bytes :
      (read : Reader A)
      → ((x : A) (t : List ℕ) → P x → read (bytes x ++ t) ≡ ok (x, t))
      → (xs : List A) (t : List ℕ) → All P xs
      → read_many (length xs) read (list_bytes bytes xs ++ t) ≡ ok (xs, t)
  unfolding read_many list_bytes
  read_many-list_bytes read each [] t h = refl
  read_many-list_bytes read each (x ∷ xs) t (hx, hs) =
      rw
        (append_assoc, each x (list_bytes bytes xs ++ t) hx, read_many-list_bytes read each xs t hs)
        refl
