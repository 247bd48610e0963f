-- ===== src/Tumbler/Routes.antt =====
-- src/tumbler.cpp: the routes of a plan, and its execution.
use cryptopeg.Prelude.{
  ℕ, zero, suc, ◌+◌, ◌-◌, ◌%◌, ◌^◌, ◌≤◌, ◌<◌, ◌≡◌, refl, ◌∙◌, ap, true, arith, List, [], ◌∷◌,
  length, ==_iff,
}
use cryptopeg.Tumbler.{
  MicroHop, TumblerRoute, Draws, partition_amount, pool_vault_origin, make_hops, make_route,
  make_routes, plan_withdrawal_tumbling, disbursed, execute_tumbling_plan,
}
use cryptopeg.Tumbler.Partition.{sum, partition_wraps}

disbursed_wraps :
    (acc : ℕ) (draws : Draws) (destination : List ℕ) (i : ℕ) (parts : List ℕ)
    → acc < 2 ^ 64
    → disbursed acc (make_routes draws destination i parts) ≡ (acc + sum parts) % 2 ^ 64
unfolding disbursed make_routes make_route
disbursed_wraps acc draws destination i [] h = omega arith
disbursed_wraps acc draws destination i (part ∷ parts) h =
    disbursed_wraps ((acc + part) % 2 ^ 64) draws destination (i + 1) parts (omega arith)
    ∙ omega arith

-- Executing a plan for a net amount of 64 bits succeeds: whatever portions of 64 bits were drawn,
-- the fragments add up to the net amount in the arithmetic of `uint64_t`.
pub execute-plan :
    (draws : Draws) (order_id : List ℕ) (gross fee net : ℕ) (destination : List ℕ)
    → ((j r : ℕ) → draws.portion j r < 2 ^ 64)
    → net < 2 ^ 64
    → execute_tumbling_plan (plan_withdrawal_tumbling draws order_id gross fee net destination)
      ≡ true
unfolding execute_tumbling_plan plan_withdrawal_tumbling
execute-plan draws order_id gross fee net destination small fits = (==_iff _ net).1 (
    disbursed_wraps 0 draws destination 0 (partition_amount draws.portion net draws.fragments)
      (omega arith)
    ∙ omega (arith, partition_wraps draws.portion net draws.fragments small))

-- Hops that lead from one address to another, each from where the one before ended, with the amount
-- of the fragment and a delay of 50 ms at least.
abbrev pub Leads : ℕ → List ℕ → List ℕ → List MicroHop → Type 0
Leads part source destination [] = source ≡ destination
Leads part source destination (hop ∷ hops) =
    (hop.from_address ≡ source)
    × (hop.amount ≡ part)
    × (50 ≤ hop.delay_ms)
    × Leads part hop.to_address destination hops

make_hops-Leads :
    (draws : Draws) (destination : List ℕ) (hops_count i part n h : ℕ) (source : List ℕ)
    → h + suc n ≡ hops_count
    → Leads part source destination (make_hops draws destination hops_count i part (suc n) h source)
unfolding make_hops
make_hops-Leads draws destination hops_count i part zero h source e =
    (refl, refl, omega arith, rw ((==_iff h (hops_count - 1)).1 (omega arith)) refl)
make_hops-Leads draws destination hops_count i part (suc n) h source e = (
  refl,
  refl,
  omega arith,
  make_hops-Leads draws destination hops_count i part n (h + 1) _ (omega arith),
)

length-make_hops :
    (draws : Draws) (destination : List ℕ) (hops_count i part n h : ℕ) (source : List ℕ)
    → length (make_hops draws destination hops_count i part n h source) ≡ n
unfolding make_hops
length-make_hops draws destination hops_count i part zero h source = refl
length-make_hops draws destination hops_count i part (suc n) h source =
    ap suc (length-make_hops draws destination hops_count i part n (h + 1) _)

-- Route `i + 1`, of the `i`-th fragment on: its hops, as many as drawn, lead from the vault to the
-- destination.
abbrev pub IsRouted : Draws → List ℕ → ℕ → List ℕ → List TumblerRoute → Type 0
IsRouted draws destination i [] [] = Unit
IsRouted draws destination i [] (route ∷ routes) = ⊥
IsRouted draws destination i (part ∷ parts) [] = ⊥
IsRouted draws destination i (part ∷ parts) (route ∷ routes) =
    (route.fragment_index ≡ i + 1)
    × (route.fragment_amount ≡ part)
    × (length route.hops ≡ draws.hops i)
    × Leads part pool_vault_origin destination route.hops
    × IsRouted draws destination (i + 1) parts routes

module _ (draws : Draws) (destination : List ℕ) (enough : (i : ℕ) → 1 ≤ draws.hops i) where
  make_route-Leads :
      (i part : ℕ)
      → Leads part pool_vault_origin destination (make_route draws destination i part).hops
  unfolding make_route
  make_route-Leads i part = start (draws.hops i) refl (enough i)
    where
      start :
          (n : ℕ)
          → draws.hops i ≡ n
          → 1 ≤ n
          → Leads part pool_vault_origin destination
              (make_hops draws destination (draws.hops i) i part n 0 pool_vault_origin)
      start zero e h = absurd (omega arith)
      start (suc n) e h =
          make_hops-Leads draws destination (draws.hops i) i part n 0 pool_vault_origin
            (omega arith)

  make_routes-IsRouted :
      (i : ℕ) (parts : List ℕ)
      → IsRouted draws destination i parts (make_routes draws destination i parts)
  unfolding make_routes make_route
  make_routes-IsRouted i [] = tt
  make_routes-IsRouted i (part ∷ parts) = (
    refl,
    refl,
    length-make_hops draws destination (draws.hops i) i part (draws.hops i) 0 pool_vault_origin,
    make_route-Leads i part,
    make_routes-IsRouted (i + 1) parts,
  )

  -- A plan has one route for each fragment of the net amount. Where at least one hop is drawn for
  -- each route, the hops of every route are as many as drawn and lead from the vault to the
  -- destination: each starts where the one before ended, carries the fragment and waits 50 ms at
  -- least.
  pub plan-IsRouted :
      (order_id : List ℕ) (gross fee net : ℕ)
      → IsRouted draws destination 0
          (partition_amount draws.portion net draws.fragments)
          (plan_withdrawal_tumbling draws order_id gross fee net destination).routes
  unfolding plan_withdrawal_tumbling
  plan-IsRouted order_id gross fee net =
      make_routes-IsRouted 0 (partition_amount draws.portion net draws.fragments)
