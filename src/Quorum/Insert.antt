-- ===== src/Quorum/Insert.antt =====
-- src/block.cpp: the insertions of `add_quorum_signature`, and that those of two keys commute.
use cryptopeg.Prelude.{
  ℕ, zero, suc, ◌+◌, ◌≤◌, ◌≡◌, ◌≢◌, refl, sym, ap, true, arith, List, [], ◌∷◌, length, bytes_eq_iff,
  inl, inr, Bool-cases,
}
use cryptopeg.Block.{BlockHeader}
use cryptopeg.Quorum.{lex_lt, contains_key, find_pos, insert_at, add_quorum_signature}
use cryptopeg.Quorum.Lex.{lex_irrefl, lex_asymm, lex_trans, lex_total}

pub length-insert_at :
    (i : ℕ) (x : List ℕ) (xs : List (List ℕ)) → length (insert_at i x xs) ≡ length xs + 1
unfolding insert_at
length-insert_at zero x xs = omega arith
length-insert_at (suc i) x [] = omega arith
length-insert_at (suc i) x (y ∷ ys) = omega (arith, length-insert_at i x ys)

find_pos-le-length : (ks : List (List ℕ)) (pk : List ℕ) → find_pos ks pk ≤ length ks
unfolding find_pos
find_pos-le-length [] pk = omega arith
find_pos-le-length (k ∷ ks) pk = ground (arith, find_pos-le-length ks pk)

contains_key-insert_at :
    (i : ℕ) (x : List ℕ) (ks : List (List ℕ)) (pk : List ℕ)
    → x ≢ pk
    → contains_key (insert_at i x ks) pk ≡ contains_key ks pk
unfolding insert_at contains_key
contains_key-insert_at zero x ks pk h = ground (arith, bytes_eq_iff x pk)
contains_key-insert_at (suc i) x [] pk h = ground (arith, bytes_eq_iff x pk)
contains_key-insert_at (suc i) x (k ∷ ks) pk h = ground (arith, contains_key-insert_at i x ks pk h)

-- Two insertions, the lower one first or last.
insert_at_comm :
    (i j : ℕ) (x y : List ℕ) (xs : List (List ℕ))
    → i ≤ j
    → j ≤ length xs
    → insert_at (suc j) y (insert_at i x xs) ≡ insert_at i x (insert_at j y xs)
unfolding insert_at
insert_at_comm zero j x y xs h k = refl
insert_at_comm (suc i) zero x y xs h k = absurd (omega arith)
insert_at_comm (suc i) (suc j) x y [] h k = absurd (omega arith)
insert_at_comm (suc i) (suc j) x y (z ∷ xs) h k =
    ap (λ l. z ∷ l) (insert_at_comm i j x y xs (omega arith) (omega arith))

module _ (p q : List ℕ) (below : lex_lt p q ≡ true) where
  find_pos_mono : (ks : List (List ℕ)) → find_pos ks p ≤ find_pos ks q
  unfolding find_pos
  find_pos_mono [] = omega arith
  find_pos_mono (k ∷ ks) = ground (arith, lex_trans k p q, find_pos_mono ks)

  find_pos_upper :
      (ks : List (List ℕ)) → find_pos (insert_at (find_pos ks p) p ks) q ≡ suc (find_pos ks q)
  unfolding find_pos insert_at
  find_pos_upper [] = rw below refl
  find_pos_upper (k ∷ ks) = elim (Bool-cases (lex_lt k p)) [
    | inl less ↦ rw (less, lex_trans k p q less below) (ap suc (find_pos_upper ks))
    | inr more ↦ rw (more, below) refl
  ]

  find_pos_lower :
      (ks : List (List ℕ)) → find_pos (insert_at (find_pos ks q) q ks) p ≡ find_pos ks p
  unfolding find_pos insert_at
  find_pos_lower [] = rw (lex_asymm p q below) refl
  find_pos_lower (k ∷ ks) = elim (Bool-cases (lex_lt k q)) [
    | inl less ↦ rw less (ground (arith, find_pos_lower ks))
    | inr more ↦ ground (arith, lex_trans k p q, lex_asymm p q below)
  ]

-- As many signatures as keys.
abbrev pub IsPaired : BlockHeader → Type 0
IsPaired h = length h.quorum_signatures ≡ length h.quorum_pubkeys

ne_of_below : (p q : List ℕ) → lex_lt p q ≡ true → p ≢ q
ne_of_below p q below e = let loop : lex_lt q q ≡ true = rw e at below in cc (loop, lex_irrefl q)

add_comm_below :
    (h : BlockHeader) (p q s t : List ℕ)
    → IsPaired h
    → lex_lt p q ≡ true
    → add_quorum_signature (add_quorum_signature h p s) q t
      ≡ add_quorum_signature (add_quorum_signature h q t) p s
unfolding add_quorum_signature
add_comm_below h p q s t paired below =
    let ks = h.quorum_pubkeys in
    let i = find_pos ks p in
    let j = find_pos ks q in
    ground (
      arith,
      contains_key-insert_at i p ks q (ne_of_below p q below),
      contains_key-insert_at j q ks p (λ e. ne_of_below p q below (sym e)),
      find_pos_upper p q below ks,
      find_pos_lower p q below ks,
      find_pos_mono p q below ks,
      find_pos-le-length ks q,
      insert_at_comm i j p q ks,
      insert_at_comm i j s t h.quorum_signatures,
    )

-- The signatures of two different keys may arrive in either order.
pub add_quorum_signature_comm :
    (h : BlockHeader) (p q s t : List ℕ)
    → IsPaired h
    → p ≢ q
    → add_quorum_signature (add_quorum_signature h p s) q t
      ≡ add_quorum_signature (add_quorum_signature h q t) p s
add_quorum_signature_comm h p q s t paired ne = elim (Bool-cases (lex_lt p q)) [
  | inl below ↦ add_comm_below h p q s t paired below
  | inr above ↦ elim (Bool-cases (lex_lt q p)) [
    | inl below ↦ sym (add_comm_below h q p t s paired below)
    | inr equal ↦ absurd (ne (lex_total p q above equal))
  ]
]
