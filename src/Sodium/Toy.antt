-- ===== src/Sodium/Toy.antt =====
-- Concrete functions in the place of libsodium's, for examples: a digest repeats the number of bytes
-- and four, modulo 251, and a signature is the key and the message. A scalar and a point stand for a bit,
-- whether their first byte is 1 modulo 7, and the group of the bits is that of `xor`; every list is
-- a point.
use cryptopeg.Prelude.{
  ℕ, All, ◌+◌, ◌%◌, ◌≡◌, refl, Bool, true, false, ◌&&◌, not, some, arith, List, [], ◌∷◌, ◌++◌, ◌==◌,
  length, replicate, length-replicate, bytes_eq, bytes_eq_refl,
}
use cryptopeg.Hex.RoundTrip.{IsByte}
use cryptopeg.Sodium.{Sodium}
use cryptopeg.Sodium.Group.{le_value, IsScalar, IsGroup}

-- The bit of a list, and the list of a bit.
abbrev odd : List ℕ → Bool
odd [] = false
odd (b ∷ bs) = b % 7 == 1

abbrev pub odd_key : List ℕ
odd_key = 15 ∷ replicate 31 0

abbrev pub even_key : List ℕ
even_key = 2 ∷ replicate 31 0

abbrev bit : Bool → List ℕ
bit true = odd_key
bit false = even_key

abbrev differ : Bool → Bool → Bool
differ true b = not b
differ false b = b

abbrev pub toy : Sodium
toy = record {
  is_valid_point = λ k. true;
  generichash = λ n bytes. replicate n ((length bytes + 4) % 251);
  sign_detached = λ message key. key ++ message;
  verify_detached = λ sig message key. bytes_eq sig (key ++ message);
  scalarmult = λ c p. some (bit (odd c && odd p));
  scalarmult_base = λ x. bit (odd x);
  scalarmult_base_ok = λ x. true;
  point_add = λ p q. some (bit (differ (odd p) (odd q)));
  from_uniform = λ bytes. some bytes;
  scalar_reduce = λ bytes. bit (odd bytes);
  scalar_add = λ a b. bit (differ (odd a) (odd b));
  scalar_sub = λ a b. bit (differ (odd a) (odd b));
  scalar_mul = λ a b. bit (odd a && odd b);
}

pub toy_pair :
    (key message : List ℕ) → toy.verify_detached (toy.sign_detached message key) message key ≡ true
toy_pair key message = bytes_eq_refl (key ++ message)

pub toy_digest : (bytes : List ℕ) → length (toy.generichash 32 bytes) ≡ 32
toy_digest bytes = length-replicate 32 ((length bytes + 4) % 251)

odd-bit : (b : Bool) → odd (bit b) ≡ b
odd-bit true = refl
odd-bit false = refl

and_comm : (a b : Bool) → (a && b) ≡ (b && a)
and_comm true true = refl
and_comm true false = refl
and_comm false true = refl
and_comm false false = refl

differ_twice : (a b : Bool) → differ (differ a b) b ≡ a
differ_twice true true = refl
differ_twice true false = refl
differ_twice false true = refl
differ_twice false false = refl

and_assoc : (a b c : Bool) → (a && (b && c)) ≡ ((a && b) && c)
and_assoc true b c = refl
and_assoc false b c = refl

differ_and : (a b c : Bool) → differ (differ a b && c) (b && c) ≡ (a && c)
differ_and true true true = refl
differ_and true true false = refl
differ_and true false true = refl
differ_and true false false = refl
differ_and false true true = refl
differ_and false true false = refl
differ_and false false true = refl
differ_and false false false = refl

pub odd_key-IsScalar : IsScalar odd_key
unfolding le_value
odd_key-IsScalar = record { size = refl; bytes = omega arith; reduced = omega arith }

pub even_key-IsScalar : IsScalar even_key
unfolding le_value
even_key-IsScalar = record { size = refl; bytes = omega arith; reduced = omega arith }

bit-IsScalar : (b : Bool) → IsScalar (bit b)
bit-IsScalar true = odd_key-IsScalar
bit-IsScalar false = even_key-IsScalar

pub toy-IsGroup : IsGroup toy
toy-IsGroup = record {
  reduces = λ x. bit-IsScalar (odd x);
  mul_reduced = λ c x hc hx. bit-IsScalar (odd c && odd x);
  exchange = λ r b hr hb. rw (odd-bit (odd b), odd-bit (odd r), and_comm (odd r) (odd b)) refl;
  base_add =
      λ a b ha hb. rw (odd-bit (odd a), odd-bit (odd b), odd-bit (differ (odd a) (odd b))) refl;
  base_sub = λ a b ha hb.
      rw
        (
          odd-bit (differ (odd a) (odd b)),
          odd-bit (differ (odd a) (odd b)),
          odd-bit (odd b),
          differ_twice (odd a) (odd b),
        )
        refl;
  base_mul = λ c x q hc hx e. cc (e, odd-bit (odd x), odd-bit (odd c && odd x));
  point_mul = λ c x o p q r hc hx e f g.
      cc (
        f,
        g,
        odd-bit (odd x && odd p),
        odd-bit (odd c && odd x),
        and_assoc (odd c) (odd x) (odd p),
      );
  point_sub = λ a b o p q r s ha hb e f g h. cc (
    f,
    g,
    h,
    odd-bit (differ (odd a) (odd b)),
    odd-bit (differ (odd a) (odd b) && odd p),
    odd-bit (odd b && odd p),
    differ_and (odd a) (odd b) (odd p),
  );
}

pub toy_add_bytes : (p q r : List ℕ) → toy.point_add p q ≡ some r → All IsByte r
toy_add_bytes p q r e = rw (← some_injective _ _ e) (bit_bytes (differ (odd p) (odd q)))
  where
    bit_bytes : (b : Bool) → All IsByte (bit b)
    bit_bytes true = omega arith
    bit_bytes false = omega arith

    some_injective : (x y : List ℕ) → some x ≡ some y → x ≡ y
    some_injective x y e = cc (e)
