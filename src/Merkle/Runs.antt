-- ===== src/Merkle/Runs.antt =====
-- Runs of the Merkle tree, and its theorems at concrete inputs.
use cryptopeg.Prelude.{ℕ, ◌≡◌, refl, some, List, [], ◌∷◌, ◌++◌, replicate, ◌⊎◌}
use cryptopeg.Sodium.Toy.{toy, toy_digest}
use cryptopeg.Block.{zero_key, new_block}
use cryptopeg.Errors.{ok}
use cryptopeg.Merkle.{
  next_level, climb, tree_root, genesis_header, deposit_leaves, withdrawal_leaves, output_leaves,
  block_leaves, compute_merkle_root, create_genesis,
}
use cryptopeg.Merkle.Tree.{tree_root_total, tree_root_duplicate}
use cryptopeg.Merkle.Binding.{Collision, tree_root_binding}

abbrev one_leaf : List ℕ
one_leaf = replicate 32 1

abbrev two_leaf : List ℕ
two_leaf = replicate 32 2

-- No leaf, one leaf, and two: 64 bytes are hashed.
empty_run : tree_root toy [] ≡ some zero_key
unfolding tree_root
empty_run = refl

single_run : tree_root toy (one_leaf ∷ []) ≡ some one_leaf
unfolding tree_root climb
single_run = refl

pair_run : tree_root toy (one_leaf ∷ two_leaf ∷ []) ≡ some (replicate 32 68)
unfolding tree_root climb next_level
pair_run = refl

swapped_run : tree_root toy (two_leaf ∷ one_leaf ∷ []) ≡ some (replicate 32 68)
unfolding tree_root climb next_level
swapped_run = refl

genesis_run : create_genesis toy ≡ ok (some (record new_block { header = genesis_header }))
unfolding create_genesis compute_merkle_root block_leaves deposit_leaves withdrawal_leaves
    output_leaves tree_root
genesis_run = refl

tree_root_total_example :
    (r : List ℕ) × (tree_root toy (one_leaf ∷ two_leaf ∷ one_leaf ∷ []) ≡ some r)
tree_root_total_example = tree_root_total toy (one_leaf ∷ two_leaf ∷ one_leaf ∷ [])

tree_root_duplicate_example :
    tree_root toy (one_leaf ∷ two_leaf ∷ ([] ++ (two_leaf ∷ [])))
    ≡ tree_root toy (one_leaf ∷ two_leaf ∷ ([] ++ (two_leaf ∷ two_leaf ∷ [])))
tree_root_duplicate_example = tree_root_duplicate toy one_leaf two_leaf [] two_leaf refl

-- The hash of the example collides: it depends on the number of bytes only.
tree_root_binding_example : (one_leaf ∷ two_leaf ∷ [] ≡ two_leaf ∷ one_leaf ∷ []) ⊎ Collision toy
tree_root_binding_example =
    tree_root_binding toy toy_digest (one_leaf ∷ two_leaf ∷ []) (two_leaf ∷ one_leaf ∷ [])
      (replicate 32 68) refl (refl, (refl, tt)) (refl, (refl, tt)) pair_run swapped_run
