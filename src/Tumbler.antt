-- ===== src/Tumbler.antt =====
-- include/tumbler.hpp and src/tumbler.cpp: the plan that splits a withdrawal into fragments and hops.
-- What the random generators and the floating-point weights give is a parameter: the record `Draws`.
pub mod Partition
pub mod Routes
mod Runs
use cryptopeg.Prelude.{
  ℕ, zero, suc, ◌+◌, ◌-◌, ◌%◌, ◌^◌, max, Bool, ◌||◌, List, [], ◌∷◌, ltb, leb, ◌==◌, if◌then◌else◌,
  length,
}
use cryptopeg.Hex.{to_hex}

pub record MicroHop : Type 0 where
  pub from_address : List ℕ
  pub to_address : List ℕ
  pub amount : ℕ
  pub delay_ms : ℕ
  pub hop_tx_hash : List ℕ

pub record TumblerRoute : Type 0 where
  pub fragment_index : ℕ
  pub fragment_amount : ℕ
  pub hops : List MicroHop

pub record TumblingPlan : Type 0 where
  pub order_id : List ℕ
  pub total_gross_tokens : ℕ
  pub fee_deducted_to_pool : ℕ
  pub total_net_usdt : ℕ
  pub destination_address : List ℕ
  pub total_fragments : ℕ
  pub routes : List TumblerRoute
  pub total_estimated_duration_ms : ℕ

-- What the generators give for one plan.
pub record Draws : Type 0 where
  -- `frag_dist(gen)`
  pub fragments : ℕ
  -- `static_cast<Amount>(remaining * ratio)` for fragment `i` and what remains
  pub portion : ℕ → ℕ → ℕ
  -- `hop_dist(gen)` for route `i`
  pub hops : ℕ → ℕ
  -- `static_cast<uint32_t>(delay_dist(gen))` for a hop of a route
  pub delay : ℕ → ℕ → ℕ
  -- the bytes of an ephemeral address and of a transaction hash, for a hop of a route
  pub address_bytes : ℕ → ℕ → List ℕ
  pub hash_bytes : ℕ → ℕ → List ℕ

-- The loop over the fragments but the last, with `n` of them left: each has one unit and its
-- portion, and the last one has one unit and what remains.
unfoldable pub spread : (ℕ → ℕ → ℕ) → ℕ → ℕ → ℕ → List ℕ
spread portion zero i remaining = ((1 + remaining) % 2 ^ 64) ∷ []
spread portion (suc n) i remaining =
    ((1 + portion i remaining) % 2 ^ 64)
    ∷ spread portion n (i + 1) ((remaining + 2 ^ 64 - portion i remaining) % 2 ^ 64)

unfoldable pub partition_amount : (ℕ → ℕ → ℕ) → ℕ → ℕ → List ℕ
partition_amount portion total_amount count =
    if leb count 1 || ltb total_amount count
    then total_amount ∷ []
    else spread portion (count - 1) 0 (total_amount - count)

-- `generate_ephemeral_address` and `generate_tx_hash`
abbrev pub hex_text : List ℕ → List ℕ
hex_text bytes = b'0' ∷ b'x' ∷ to_hex bytes

-- "0xVaultCollateralReserveUSDT"
abbrev pub pool_vault_origin : List ℕ
pool_vault_origin =
    b'0' ∷ b'x' ∷ b'V' ∷ b'a' ∷ b'u' ∷ b'l' ∷ b't' ∷ b'C' ∷ b'o' ∷ b'l' ∷ b'l' ∷ b'a' ∷ b't' ∷ b'e'
    ∷ b'r' ∷ b'a' ∷ b'l' ∷ b'R' ∷ b'e' ∷ b's' ∷ b'e' ∷ b'r' ∷ b'v' ∷ b'e' ∷ b'U' ∷ b'S' ∷ b'D'
    ∷ b'T' ∷ []

module _ (draws : Draws) (destination : List ℕ) (hops_count i part : ℕ) where
  -- The hops of route `i` from hop `h` on, with `n` left.
  unfoldable pub make_hops : ℕ → ℕ → List ℕ → List MicroHop
  make_hops zero h source = []
  make_hops (suc n) h source =
      let to = if h == hops_count - 1 then destination else hex_text (draws.address_bytes i h) in
      record {
        from_address = source;
        to_address = to;
        amount = part;
        delay_ms = max 50 (draws.delay i h);
        hop_tx_hash = hex_text (draws.hash_bytes i h);
      }
      ∷ make_hops n (h + 1) to

-- `route_duration += hop.delay_ms` over the hops.
unfoldable pub route_duration : ℕ → List MicroHop → ℕ
route_duration acc [] = acc
route_duration acc (hop ∷ hops) = route_duration ((acc + hop.delay_ms) % 2 ^ 64) hops

module _ (draws : Draws) (destination : List ℕ) where
  unfoldable pub make_route : ℕ → ℕ → TumblerRoute
  make_route i part = record {
    fragment_index = i + 1;
    fragment_amount = part;
    hops = make_hops draws destination (draws.hops i) i part (draws.hops i) 0 pool_vault_origin;
  }

  unfoldable pub make_routes : ℕ → List ℕ → List TumblerRoute
  make_routes i [] = []
  make_routes i (part ∷ parts) = make_route i part ∷ make_routes (i + 1) parts

unfoldable pub longest : ℕ → List TumblerRoute → ℕ
longest acc [] = acc
longest acc (route ∷ routes) = longest (max acc (route_duration 0 route.hops)) routes

unfoldable pub plan_withdrawal_tumbling : Draws → List ℕ → ℕ → ℕ → ℕ → List ℕ → TumblingPlan
plan_withdrawal_tumbling draws order_id gross_tokens fee_pool net_usdt destination_address =
    let parts = partition_amount draws.portion net_usdt draws.fragments in
    let routes = make_routes draws destination_address 0 parts in
    record {
      order_id = order_id;
      total_gross_tokens = gross_tokens;
      fee_deducted_to_pool = fee_pool;
      total_net_usdt = net_usdt;
      destination_address = destination_address;
      total_fragments = length parts;
      routes = routes;
      total_estimated_duration_ms = longest 0 routes;
    }

-- `total_disbursed += route.fragment_amount` over the routes.
unfoldable pub disbursed : ℕ → List TumblerRoute → ℕ
disbursed acc [] = acc
disbursed acc (route ∷ routes) = disbursed ((acc + route.fragment_amount) % 2 ^ 64) routes

-- The result; the delays and what is printed are left out.
unfoldable pub execute_tumbling_plan : TumblingPlan → Bool
execute_tumbling_plan plan = disbursed 0 plan.routes == plan.total_net_usdt
