-- ===== src/Tumbler/Runs.antt =====
-- Runs of the tumbler, and its theorems at concrete inputs.
use cryptopeg.Prelude.{
  ℕ, ◌/◌, ◌*◌, ◌==◌, if◌then◌else◌, ◌≤◌, ◌<◌, ◌≡◌, refl, true, arith, [], ◌∷◌, length, All, ◌⊎◌,
  replicate,
}
use cryptopeg.Tumbler.{
  Draws, spread, partition_amount, plan_withdrawal_tumbling, execute_tumbling_plan,
}
use cryptopeg.Tumbler.Partition.{sum, partition_amount_lem}
use cryptopeg.Tumbler.Routes.{IsRouted, execute-plan, plan-IsRouted}

-- Half of what remains.
abbrev half : ℕ → ℕ → ℕ
half i remaining = remaining / 2

-- Three fragments, over two hops for the first and one for each other.
abbrev draws : Draws
draws = record {
  fragments = 3;
  portion = λ i remaining. 7;
  hops = λ i. if◌then◌else◌ (i == 0) 2 1;
  delay = λ i h. 10 * i;
  address_bytes = λ i h. replicate 20 i;
  hash_bytes = λ i h. replicate 32 h;
}

partition_run : partition_amount half 100 3 ≡ 49 ∷ 25 ∷ 26 ∷ []
unfolding partition_amount spread
partition_run = refl

few_units_run : partition_amount half 2 3 ≡ 2 ∷ []
unfolding partition_amount
few_units_run = refl

partition_amount_lem_example :
    let parts = partition_amount half 100 3 in
    (sum parts ≡ 100)
    × All (λ part. 1 ≤ part) parts
    × (((2 ≤ 3) × (3 ≤ 100) × (length parts ≡ 3)) ⊎ (((3 < 2) ⊎ (100 < 3)) × (length parts ≡ 1)))
partition_amount_lem_example =
    partition_amount_lem half 100 3 (λ j r. omega arith) (omega arith) (omega arith)

execute-plan_example :
    execute_tumbling_plan (plan_withdrawal_tumbling draws (1 ∷ []) 101 1 100 (b'0' ∷ b'x' ∷ []))
    ≡ true
execute-plan_example =
    execute-plan draws (1 ∷ []) 101 1 100 (b'0' ∷ b'x' ∷ []) (λ j r. omega arith) (omega arith)

plan-IsRouted_example :
    IsRouted draws
      (b'0' ∷ b'x' ∷ [])
      0
      (partition_amount draws.portion 100 draws.fragments)
      (plan_withdrawal_tumbling draws (1 ∷ []) 101 1 100 (b'0' ∷ b'x' ∷ [])).routes
plan-IsRouted_example =
    plan-IsRouted draws (b'0' ∷ b'x' ∷ []) (λ i. ground arith) (1 ∷ []) 101 1 100
