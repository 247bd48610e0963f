-- ===== src/Merkle/Binding.antt =====
-- src/block.cpp: a Merkle root binds the leaves, up to a collision of the hash.
use cryptopeg.Prelude.{
  ℕ, zero, suc, ◌≡◌, ◌≢◌, refl, sym, ap, ◌∙◌, arith, some, List, [], ◌∷◌, ◌++◌, length,
  length-append, All, ◌⊎◌, inl, inr, Bool-cases, bytes_eq, bytes_eq_iff, take-append, drop-append,
  take, drop,
}
use cryptopeg.Block.{IsKey}
use cryptopeg.Sodium.{Sodium}
use cryptopeg.Merkle.{hash32, next_level, climb, tree_root}

cons_injective : (x y : List ℕ) (xs ys : List (List ℕ)) → x ∷ xs ≡ y ∷ ys → (x ≡ y) × (xs ≡ ys)
cons_injective x y xs ys e = (cc, cc)

module _ (sodium : Sodium) where
  -- Two different inputs of the hash, of two hashes each, with one output.
  abbrev pub Collision : Type 0
  Collision =
      (p q : List ℕ) × (length p ≡ 64)
      × (length q ≡ 64)
      × (p ≢ q)
      × (hash32 sodium p ≡ hash32 sodium q)

  append_injective :
      (n : ℕ) (a b c d : List ℕ) → length a ≡ n → length c ≡ n → a ++ b ≡ c ++ d → (a ≡ c) × (b ≡ d)
  append_injective n a b c d ha hc e = (
    sym (take-append n a b ha) ∙ ap (take n) e ∙ take-append n c d hc,
    sym (drop-append n a b ha) ∙ ap (drop n) e ∙ drop-append n c d hc,
  )

  -- Two pairs of hashes with one hash are the same pairs, or a collision.
  same_pair :
      (a b c d : List ℕ)
      → IsKey a
      → IsKey b
      → IsKey c
      → IsKey d
      → hash32 sodium (a ++ b) ≡ hash32 sodium (c ++ d)
      → ((a ≡ c) × (b ≡ d)) ⊎ Collision
  same_pair a b c d ha hb hc hd e = elim (Bool-cases (bytes_eq (a ++ b) (c ++ d))) [
    | inl equal ↦ inl (append_injective 32 a b c d ha hc ((bytes_eq_iff (a ++ b) (c ++ d)).0 equal))
    | inr apart ↦ inr (
      a ++ b,
      c ++ d,
      omega (arith, length-append a b),
      omega (arith, length-append c d),
      λ same. cc (apart, (bytes_eq_iff (a ++ b) (c ++ d)).1 same),
      e,
    )
  ]

  next_level_binding :
      (xs ys : List (List ℕ))
      → length xs ≡ length ys
      → All IsKey xs
      → All IsKey ys
      → next_level sodium xs ≡ next_level sodium ys
      → (xs ≡ ys) ⊎ Collision
  unfolding next_level
  next_level_binding [] [] n hx hy e = inl refl
  next_level_binding [] (y ∷ ys) n hx hy e = absurd (omega arith)
  next_level_binding (x ∷ xs) [] n hx hy e = absurd (omega arith)
  next_level_binding (x ∷ []) (y ∷ []) n (hx, _) (hy, _) e =
      elim (same_pair x x y y hx hx hy hy (cons_injective _ _ _ _ e).0) [
        | inl (same, _) ↦ inl (ap (λ k. k ∷ []) same)
        | inr collision ↦ inr collision
      ]
  next_level_binding (x ∷ []) (y ∷ y' ∷ ys) n hx hy e = absurd (omega arith)
  next_level_binding (x ∷ x' ∷ xs) (y ∷ []) n hx hy e = absurd (omega arith)
  next_level_binding (x ∷ x' ∷ xs) (y ∷ y' ∷ ys) n (hx, (hx', hxs)) (hy, (hy', hys)) e =
      let (heads, tails) = cons_injective _ _ _ _ e in
      elim (same_pair x x' y y' hx hx' hy hy' heads) [
        | inl (first, second) ↦ elim (next_level_binding xs ys (omega arith) hxs hys tails) [
          | inl rest ↦ inl (cc)
          | inr collision ↦ inr collision
        ]
        | inr collision ↦ inr collision
      ]

  -- The hash has an output of 32 bytes.
  module _ (digest : (bytes : List ℕ) → IsKey (hash32 sodium bytes)) where
    next_level-IsKey : (xs : List (List ℕ)) → All IsKey xs → All IsKey (next_level sodium xs)
    unfolding next_level
    next_level-IsKey [] h = tt
    next_level-IsKey (x ∷ []) h = (digest (x ++ x), tt)
    next_level-IsKey (x ∷ y ∷ xs) (hx, (hy, h)) = (digest (x ++ y), next_level-IsKey xs h)

    next_level-length :
        (xs ys : List (List ℕ))
        → length xs ≡ length ys
        → length (next_level sodium xs) ≡ length (next_level sodium ys)
    unfolding next_level
    next_level-length [] [] n = refl
    next_level-length [] (y ∷ ys) n = absurd (omega arith)
    next_level-length (x ∷ xs) [] n = absurd (omega arith)
    next_level-length (x ∷ []) (y ∷ []) n = refl
    next_level-length (x ∷ []) (y ∷ y' ∷ ys) n = absurd (omega arith)
    next_level-length (x ∷ x' ∷ xs) (y ∷ []) n = absurd (omega arith)
    next_level-length (x ∷ x' ∷ xs) (y ∷ y' ∷ ys) n =
        omega (arith, next_level-length xs ys (omega arith))

    climb_binding :
        (fuel : ℕ) (xs ys : List (List ℕ)) (r : List ℕ)
        → length xs ≡ length ys
        → All IsKey xs
        → All IsKey ys
        → climb sodium fuel xs ≡ some r
        → climb sodium fuel ys ≡ some r
        → (xs ≡ ys) ⊎ Collision
    unfolding climb
    climb_binding fuel [] ys r n hx hy e f = cc
    climb_binding fuel (x ∷ xs) [] r n hx hy e f = absurd (omega arith)
    climb_binding fuel (x ∷ []) (y ∷ []) r n hx hy e f = inl (cc)
    climb_binding fuel (x ∷ []) (y ∷ y' ∷ ys) r n hx hy e f = absurd (omega arith)
    climb_binding fuel (x ∷ x' ∷ xs) (y ∷ []) r n hx hy e f = absurd (omega arith)
    climb_binding zero (x ∷ x' ∷ xs) (y ∷ y' ∷ ys) r n hx hy e f = cc
    climb_binding (suc fuel) (x ∷ x' ∷ xs) (y ∷ y' ∷ ys) r n hx hy e f =
        let up = next_level sodium (x ∷ x' ∷ xs) in
        let up' = next_level sodium (y ∷ y' ∷ ys) in
        elim (climb_binding fuel up up' r (next_level-length (x ∷ x' ∷ xs) (y ∷ y' ∷ ys) n)
          (next_level-IsKey (x ∷ x' ∷ xs) hx) (next_level-IsKey (y ∷ y' ∷ ys) hy) e f) [
            | inl same ↦ next_level_binding (x ∷ x' ∷ xs) (y ∷ y' ∷ ys) n hx hy same
            | inr collision ↦ inr collision
          ]

    -- Where the hash has 32 bytes, two lists of as many leaves, of 32 bytes each, with one root are
    -- the same list, or exhibit a collision of the hash: a root binds the leaves and their order,
    -- for a given number of leaves.
    pub tree_root_binding :
        (xs ys : List (List ℕ)) (r : List ℕ)
        → length xs ≡ length ys
        → All IsKey xs
        → All IsKey ys
        → tree_root sodium xs ≡ some r
        → tree_root sodium ys ≡ some r
        → (xs ≡ ys) ⊎ Collision
    unfolding tree_root
    tree_root_binding [] [] r n hx hy e f = inl refl
    tree_root_binding [] (y ∷ ys) r n hx hy e f = absurd (omega arith)
    tree_root_binding (x ∷ xs) [] r n hx hy e f = absurd (omega arith)
    tree_root_binding (x ∷ xs) (y ∷ ys) r n hx hy e f =
        climb_binding (length xs) (x ∷ xs) (y ∷ ys) r n hx hy e (rw same_fuel at f)
      where
        same_fuel : length ys ≡ length xs
        same_fuel = omega arith
