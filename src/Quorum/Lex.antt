-- ===== src/Quorum/Lex.antt =====
-- src/block.cpp: `std::lexicographical_compare` is a strict total order on keys.
use cryptopeg.Prelude.{ℕ, ◌≡◌, refl, true, false, arith, List, [], ◌∷◌}
use cryptopeg.Quorum.{lex_lt}

pub lex_irrefl : (xs : List ℕ) → lex_lt xs xs ≡ false
unfolding lex_lt
lex_irrefl [] = refl
lex_irrefl (x ∷ xs) = ground (arith, lex_irrefl xs)

pub lex_asymm : (xs ys : List ℕ) → lex_lt xs ys ≡ true → lex_lt ys xs ≡ false
unfolding lex_lt
lex_asymm [] [] h = refl
lex_asymm [] (y ∷ ys) h = refl
lex_asymm (x ∷ xs) [] h = ground arith
lex_asymm (x ∷ xs) (y ∷ ys) h = ground (arith, lex_asymm xs ys)

pub lex_trans :
    (xs ys zs : List ℕ) → lex_lt xs ys ≡ true → lex_lt ys zs ≡ true → lex_lt xs zs ≡ true
unfolding lex_lt
lex_trans [] [] zs h k = ground arith
lex_trans [] (y ∷ ys) [] h k = ground arith
lex_trans [] (y ∷ ys) (z ∷ zs) h k = refl
lex_trans (x ∷ xs) [] zs h k = ground arith
lex_trans (x ∷ xs) (y ∷ ys) [] h k = ground arith
lex_trans (x ∷ xs) (y ∷ ys) (z ∷ zs) h k = ground (arith, lex_trans xs ys zs)

-- Two keys neither of which is below the other are equal.
pub lex_total : (xs ys : List ℕ) → lex_lt xs ys ≡ false → lex_lt ys xs ≡ false → xs ≡ ys
unfolding lex_lt
lex_total [] [] h k = refl
lex_total [] (y ∷ ys) h k = ground arith
lex_total (x ∷ xs) [] h k = ground arith
lex_total (x ∷ xs) (y ∷ ys) h k = ground (arith, lex_total xs ys)
