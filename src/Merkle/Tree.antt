-- ===== src/Merkle/Tree.antt =====
-- src/block.cpp: the loop that builds the Merkle tree.
use cryptopeg.Prelude.{
  ℕ, zero, suc, ◌+◌, ◌%◌, ◌≤◌, ◌≡◌, refl, ap, ◌∙◌, arith, some, List, [], ◌∷◌, ◌++◌, length,
  length-append,
}
use cryptopeg.Block.{zero_key}
use cryptopeg.Sodium.{Sodium}
use cryptopeg.Merkle.{hash32, next_level, climb, tree_root}

module _ (sodium : Sodium) where
  next_level-shorter :
      (a b : List ℕ) (rest : List (List ℕ))
      → (1 ≤ length (next_level sodium (a ∷ b ∷ rest)))
        × (length (next_level sodium (a ∷ b ∷ rest)) ≤ length rest + 1)
  unfolding next_level
  next_level-shorter a b [] = omega arith
  next_level-shorter a b (c ∷ []) = omega arith
  next_level-shorter a b (c ∷ d ∷ rest) = omega (arith, next_level-shorter c d rest)

  climb_total :
      (fuel : ℕ) (xs : List (List ℕ))
      → 1 ≤ length xs
      → length xs ≤ fuel + 1
      → (r : List ℕ) × (climb sodium fuel xs ≡ some r)
  unfolding climb
  climb_total fuel [] h k = absurd (omega arith)
  climb_total zero (a ∷ []) h k = (a, refl)
  climb_total (suc fuel) (a ∷ []) h k = (a, refl)
  climb_total zero (a ∷ b ∷ rest) h k = absurd (omega arith)
  climb_total (suc fuel) (a ∷ b ∷ rest) h k =
      let (some_left, shorter) = next_level-shorter a b rest in
      climb_total fuel (next_level sodium (a ∷ b ∷ rest)) some_left (omega arith)

  -- The loop over the levels ends within its fuel: every list of leaves has a root.
  pub tree_root_total : (leaves : List (List ℕ)) → (r : List ℕ) × (tree_root sodium leaves ≡ some r)
  unfolding tree_root
  tree_root_total [] = (zero_key, refl)
  tree_root_total (a ∷ leaves) =
      climb_total (length leaves) (a ∷ leaves) (omega arith) (omega arith)

  -- Any fuel that is enough gives the same root.
  climb_fuel :
      (f g : ℕ) (xs : List (List ℕ))
      → length xs ≤ f + 1
      → length xs ≤ g + 1
      → climb sodium f xs ≡ climb sodium g xs
  unfolding climb
  climb_fuel f g [] h k = refl
  climb_fuel f g (a ∷ []) h k = refl
  climb_fuel zero g (a ∷ b ∷ rest) h k = absurd (omega arith)
  climb_fuel (suc f) zero (a ∷ b ∷ rest) h k = absurd (omega arith)
  climb_fuel (suc f) (suc g) (a ∷ b ∷ rest) h k =
      let (some_left, shorter) = next_level-shorter a b rest in
      climb_fuel f g (next_level sodium (a ∷ b ∷ rest)) (omega arith) (omega arith)

  next_level_twice :
      (xs : List (List ℕ)) (a : List ℕ)
      → length xs % 2 ≡ 0
      → next_level sodium (xs ++ (a ∷ [])) ≡ next_level sodium (xs ++ (a ∷ a ∷ []))
  unfolding next_level
  next_level_twice [] a h = refl
  next_level_twice (x ∷ []) a h = absurd (omega arith)
  next_level_twice (x ∷ y ∷ xs) a h =
      ap (λ l. hash32 sodium (x ++ y) ∷ l) (next_level_twice xs a (omega arith))

  -- An odd number of leaves, three at least, has the root that it has with its last leaf twice.
  pub tree_root_duplicate :
      (x y : List ℕ) (xs : List (List ℕ)) (a : List ℕ)
      → length xs % 2 ≡ 0
      → tree_root sodium (x ∷ y ∷ (xs ++ (a ∷ [])))
        ≡ tree_root sodium (x ∷ y ∷ (xs ++ (a ∷ a ∷ [])))
  unfolding tree_root climb
  tree_root_duplicate x y xs a h =
      let once = xs ++ (a ∷ []) in
      let twice = xs ++ (a ∷ a ∷ []) in
      let same = next_level_twice (x ∷ y ∷ xs) a (omega arith) in
      let (some_left, shorter) = next_level-shorter x y once in
      ap (climb sodium (length once)) same
      ∙ climb_fuel (length once) (length twice) (next_level sodium (x ∷ y ∷ twice))
          (omega (arith, ap length same))
          (omega (arith, ap length same, length-append xs (a ∷ []), length-append xs (a ∷ a ∷ [])))
