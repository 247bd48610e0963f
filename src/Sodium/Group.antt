-- ===== src/Sodium/Group.antt =====
-- What the sources rely on of libsodium's curve: reduced scalars act on the multiples of the base point and on
-- the points that are a multiple of 8, whose order is prime.
use cryptopeg.Prelude.{ℕ, ◌+◌, ◌*◌, ◌^◌, ◌<◌, ◌≡◌, some, List, [], ◌∷◌, length, replicate, All}
use cryptopeg.Hex.RoundTrip.{IsByte}
use cryptopeg.Sodium.{Sodium}

-- The scalar 8.
abbrev pub eight : List ℕ
eight = 8 ∷ replicate 31 0

-- The number that bytes stand for, the low one first.
unfoldable pub le_value : List ℕ → ℕ
le_value [] = 0
le_value (b ∷ bs) = b + 256 * le_value bs

-- A reduced scalar: 32 bytes, below the order of the base point.
pub record IsScalar (s : List ℕ) : Type 0 where
  pub size : length s ≡ 32
  pub bytes : All IsByte s
  pub reduced : le_value s < 2 ^ 252 + 27742317777372353535851937790883648493

pub record IsGroup (sodium : Sodium) : Type 0 where
  -- what is reduced or multiplied is a reduced scalar
  pub reduces : (x : List ℕ) → IsScalar (sodium.scalar_reduce x)
  pub mul_reduced : (c x : List ℕ) → IsScalar c → IsScalar x → IsScalar (sodium.scalar_mul c x)
  -- r (b G) = b (r G)
  pub exchange :
      (r b : List ℕ)
      → IsScalar r
      → IsScalar b
      → sodium.scalarmult r (sodium.scalarmult_base b)
        ≡ sodium.scalarmult b (sodium.scalarmult_base r)
  -- a G + b G = (a + b) G
  pub base_add :
      (a b : List ℕ)
      → IsScalar a
      → IsScalar b
      → sodium.point_add (sodium.scalarmult_base a) (sodium.scalarmult_base b)
        ≡ some (sodium.scalarmult_base (sodium.scalar_add a b))
  -- (a - b) G + b G = a G
  pub base_sub :
      (a b : List ℕ)
      → IsScalar a
      → IsScalar b
      → sodium.point_add (sodium.scalarmult_base (sodium.scalar_sub a b)) (sodium.scalarmult_base b)
        ≡ some (sodium.scalarmult_base a)
  -- c (x G) = (c x) G
  pub base_mul :
      (c x q : List ℕ)
      → IsScalar c
      → IsScalar x
      → sodium.scalarmult c (sodium.scalarmult_base x) ≡ some q
      → q ≡ sodium.scalarmult_base (sodium.scalar_mul c x)
  -- c (x p) = (c x) p, for a multiple `p` of 8
  pub point_mul :
      (c x o p q r : List ℕ)
      → IsScalar c
      → IsScalar x
      → sodium.scalarmult eight o ≡ some p
      → sodium.scalarmult x p ≡ some q
      → sodium.scalarmult c q ≡ some r
      → sodium.scalarmult (sodium.scalar_mul c x) p ≡ some r
  -- (a - b) p + b p = a p, for a multiple `p` of 8
  pub point_sub :
      (a b o p q r s : List ℕ)
      → IsScalar a
      → IsScalar b
      → sodium.scalarmult eight o ≡ some p
      → sodium.scalarmult (sodium.scalar_sub a b) p ≡ some q
      → sodium.scalarmult b p ≡ some r
      → sodium.scalarmult a p ≡ some s
      → sodium.point_add q r ≡ some s
