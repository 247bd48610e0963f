-- ===== src/Lmdb/Toy.antt =====
-- Association lists in the place of LMDB's tables, for examples.
use cryptopeg.Prelude.{
  ℕ, ◌≡◌, refl, Bool, true, false, Option, none, some, arith, List, [], ◌∷◌, if◌then◌else◌,
  bytes_eq, bytes_eq_iff, Bool-cases, inl, inr,
}
use cryptopeg.Lmdb.{Lmdb, IsMap, NeverFull, Txn}

abbrev pub Pairs : Type 0
Pairs = List (List ℕ × List ℕ)

abbrev get : List ℕ → Pairs → Option (List ℕ)
get q [] = none
get q ((k, v) ∷ t) = let rest = get q t in if bytes_eq k q then some v else rest

abbrev without : List ℕ → Pairs → Pairs
without q [] = []
without q ((k, v) ∷ t) = let rest = without q t in if bytes_eq q k then rest else (k, v) ∷ rest

abbrev is_some : Option (List ℕ) → Bool
is_some none = false
is_some (some v) = true

abbrev pub association : Lmdb
association = record {
  Table = Pairs;
  get = get;
  put = λ k v t. some ((k, v) ∷ t);
  del = λ k t. if is_some (get k t) then some (without k t) else none;
  entries = λ t. t;
}

get-without :
    (k q : List ℕ) (t : Pairs) → get q (without k t) ≡ (if bytes_eq k q then none else get q t)
get-without k q [] = ground arith
get-without k q ((j, v) ∷ t) =
    ground (arith, get-without k q t, bytes_eq_iff k q, bytes_eq_iff k j, bytes_eq_iff j q)

some_injective {ℓ} : {A : Type ℓ} (x y : A) → some x ≡ some y → x ≡ y
some_injective x y e = cc (e)

get_del_lem :
    (k q : List ℕ) (t t' : Pairs)
    → association.del k t ≡ some t'
    → get q t' ≡ (if bytes_eq k q then none else get q t)
get_del_lem k q t t' e = elim (Bool-cases (is_some (get k t))) [
  | inl found ↦
      let same : some (without k t) ≡ some t' = rw found at e in
      rw (← some_injective (without k t) t' same) (get-without k q t)
  | inr gone ↦ let never : ◌≡◌ {A = Option Pairs} none (some t') = rw gone at e in cc (never)
]

del_absent_lem : (k : List ℕ) (t : Pairs) → association.del k t ≡ none → get k t ≡ none
del_absent_lem k t e = ground (arith, e)

pub association-IsMap : IsMap association
association-IsMap = record {
  get_put = λ k v q t t' e. rw (← some_injective ((k, v) ∷ t) t' e) refl;
  get_del = get_del_lem;
}

pub association-NeverFull : NeverFull association
association-NeverFull = record { put_ok = λ k v t. ((k, v) ∷ t, refl); del_absent = del_absent_lem }

-- A transaction that begins and commits, with a cursor.
abbrev pub sound : Txn
sound = record { begins = true; commits = true; opens = true }
