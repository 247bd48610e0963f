-- ===== src/Serial/Cursor/Refine.antt =====
-- serialization.hpp: each method of `ByteReader` does what the method of `Serial` does on the bytes
-- behind the cursor.
use Prim.Native.Nat.{bit_or}
use Prim.Native.Nat.add
use native.Mathlib.Numerals.{add-one}
use cryptopeg.Prelude.{
  ℕ, zero, suc, ◌+◌, ◌-◌, ◌*◌, ◌^◌, ◌≤◌, ◌<◌, ◌≡◌, refl, sym, ap, arith, Bool, true, false, List,
  [], ◌∷◌, none, some, ltb, length, length-drop, take, drop, get_elem?, Bool-cases, le→ltb, le→leb,
  inl, inr,
}
use cryptopeg.Errors.{Error, Result, ok, err}
use cryptopeg.Errors
use cryptopeg.Serial
use cryptopeg.Serial.{Reader, max_serialized_string_bytes}
use cryptopeg.Serial.Cursor.{
  ByteReader, Method, ◌>>=◌, throw_if, require_remaining, next_byte, read_le, read_u8, read_u32,
  read_u64, copy, read_bytes, read_string, remaining, unread, IsInBounds, Agree, Refines,
}

drop-suc :
    (k : ℕ) (xs : List ℕ) (b : ℕ) (rest : List ℕ)
    → drop k xs ≡ b ∷ rest
    → (get_elem? xs k ≡ some b) × (drop (suc k) xs ≡ rest) × (k < length xs)
drop-suc zero [] b rest h = ground arith
drop-suc zero (x ∷ xs) b rest h = ground arith
drop-suc (suc k) [] b rest h = ground arith
drop-suc (suc k) (x ∷ xs) b rest h = ground (arith, drop-suc k xs b rest h)

drop_nil : (k : ℕ) (xs : List ℕ) → drop k xs ≡ [] → get_elem? xs k ≡ none
drop_nil zero [] h = refl
drop_nil zero (x ∷ xs) h = ground arith
drop_nil (suc k) [] h = refl
drop_nil (suc k) (x ∷ xs) h = drop_nil k xs h

drop_empty : (k : ℕ) → drop {A = ℕ} k [] ≡ []
drop_empty zero = refl
drop_empty (suc k) = refl

drop-drop : (k n : ℕ) (xs : List ℕ) → drop n (drop k xs) ≡ drop (k + n) xs
drop-drop zero n xs = ap (λ (t : ℕ). drop t xs) (omega arith)
drop-drop (suc k) n [] = rw (add.suc, drop_empty n) refl
drop-drop (suc k) n (x ∷ xs) = rw add.suc (drop-drop k n xs)

advance : ByteReader → ℕ → ByteReader
advance r n = record r { cursor = r.cursor + n }

-- One byte is read from the buffer exactly if one is left.
module _ (r : ByteReader) where
  next_byte_some :
      (b : ℕ) (rest : List ℕ)
      → unread r ≡ b ∷ rest
      → (next_byte r ≡ ok (b, advance r 1))
        × (unread (advance r 1) ≡ rest)
        × IsInBounds (advance r 1)
  unfolding next_byte advance
  next_byte_some b rest e =
      let (found, after, within) = drop-suc r.cursor r.bytes b rest e in
      (rw (found, next_byte) refl, rw add-one after, omega arith)

  next_byte_none : unread r ≡ [] → next_byte r ≡ err Error.out_of_bounds
  unfolding next_byte
  next_byte_none e = rw (drop_nil r.cursor r.bytes e, next_byte) refl

read_le-Agree :
    (n i val : ℕ) (r : ByteReader) (bs : List ℕ)
    → unread r ≡ bs
    → IsInBounds r
    → Agree (read_le n i val r) (Serial.read_le n i val bs)
unfolding read_le Serial.read_le
read_le-Agree zero i val r bs e h = (refl, e, h)
read_le-Agree (suc n) i val r [] e h = rw (next_byte_none r e) refl
read_le-Agree (suc n) i val r (b ∷ bs) e h =
    let (step, after, within) = next_byte_some r b bs e in
    rw step (read_le-Agree n (i + 1) (bit_or val (b * 2 ^ (i * 8))) (advance r 1) bs after within)

read_le-Refines : (n i val : ℕ) → Refines (read_le n i val) (Serial.read_le n i val)
read_le-Refines n i val r h = read_le-Agree n i val r (unread r) refl h

-- Sequences of methods that agree agree, so the readers built from them do.
pub Refines-bind :
    {A B : Type 0} (m : Method A) (s : Reader A) (f : A → Method B) (g : A → Reader B)
    → Refines m s
    → ((a : A) → Refines (f a) (g a))
    → Refines (m >>= f) (λ bs. Errors.◌>>=◌ (s bs) (λ p. g p.0 p.1))
Refines-bind {A} {B} m s f g hm hf r h = split (m r) (s (unread r)) (hm r h)
  where
    split :
        (x : Result (A × ByteReader)) (y : Result (A × List ℕ))
        → Agree x y
        → Agree (Errors.◌>>=◌ x (λ p. f p.0 p.1)) (Errors.◌>>=◌ y (λ p. g p.0 p.1))
    split (ok (a, r')) (ok (b, bs)) (e, after, within) = rw (← e, ← after) (hf a r' within)
    split (ok _) (err e) no_way = absurd no_way
    split (err e) (ok _) no_way = absurd no_way
    split (err e) (err e') same = same

require_remaining-Refines : (n : ℕ) → Refines (require_remaining n) (Serial.require_remaining n)
unfolding require_remaining Serial.require_remaining
require_remaining-Refines n r h = ground (arith, length-drop r.cursor r.bytes)

throw_if-Refines : (c : Bool) (e : Error) → Refines (throw_if c e) (Serial.throw_if c e)
throw_if-Refines true e r h = refl
throw_if-Refines false e r h = (refl, refl, h)

copy-Refines :
    (n : ℕ) (r : ByteReader)
    → r.cursor + n ≤ length r.bytes
    → Agree (copy n r) (ok (take n (unread r), drop n (unread r)))
copy-Refines n r h = (refl, sym (drop-drop r.cursor n r.bytes), h)

read_bytes-Refines : (len : ℕ) → Refines (read_bytes len) (Serial.read_bytes len)
unfolding read_bytes Serial.read_bytes require_remaining Serial.require_remaining
read_bytes-Refines len r h = elim (Bool-cases (ltb (length r.bytes - r.cursor) len)) [
  | inl short ↦ rw (length-drop r.cursor r.bytes, short, le→ltb (length r.bytes) r.cursor h) refl
  | inr enough ↦
      rw (length-drop r.cursor r.bytes, enough, le→ltb (length r.bytes) r.cursor h)
        (copy-Refines len r (ground arith))
]

number-Refines :
    (n : ℕ)
    → Refines
        (require_remaining n >>= λ _. read_le n 0 0)
        (λ bs. Errors.◌>>=◌ (Serial.require_remaining n bs) (λ p. Serial.read_le n 0 0 p.1))
number-Refines n =
    Refines-bind (require_remaining n) (Serial.require_remaining n) (λ _. read_le n 0 0)
      (λ _. Serial.read_le n 0 0) (require_remaining-Refines n) (λ _. read_le-Refines n 0 0)

read_string-Refines : Refines read_string Serial.read_string
unfolding read_string Serial.read_string
read_string-Refines =
    Refines-bind read_u32 Serial.read_u32 _ _ (unfold read_u32 Serial.read_u32 in number-Refines 4)
      λ len.
        Refines-bind (throw_if (ltb max_serialized_string_bytes len) Error.string_over_limit)
          (Serial.throw_if (ltb max_serialized_string_bytes len) Error.string_over_limit)
          (λ _. read_bytes len) (λ _. Serial.read_bytes len) (throw_if-Refines _ _)
          (λ _. read_bytes-Refines len)

-- On a reader whose cursor is within its buffer, every method returns what the method of `Serial`
-- returns on the bytes not yet reached, leaves the same bytes and the cursor within the buffer, or
-- throws the same exception.
pub methods_refine :
    (r : ByteReader) (len : ℕ)
    → IsInBounds r
    → Agree (read_u8 r) (Serial.read_u8 (unread r))
      × Agree (read_u32 r) (Serial.read_u32 (unread r))
      × Agree (read_u64 r) (Serial.read_u64 (unread r))
      × Agree (read_bytes len r) (Serial.read_bytes len (unread r))
      × Agree (read_string r) (Serial.read_string (unread r))
      × Agree (remaining r) (Serial.remaining (unread r))
unfolding read_u8 read_u32 read_u64 remaining Serial.read_u8 Serial.read_u32 Serial.read_u64
methods_refine r len h = (
  number-Refines 1 r h,
  number-Refines 4 r h,
  number-Refines 8 r h,
  read_bytes-Refines len r h,
  read_string-Refines r h,
  (rw (le→leb r.cursor (length r.bytes) h, length-drop r.cursor r.bytes) refl, refl, h),
)
