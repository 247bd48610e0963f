-- ===== src/Vault/Restore.antt =====
-- src/vault.cpp: the audit, and the balances restored from the database.
use cryptopeg.Prelude.{ℕ, ◌+◌, ◌-◌, ◌%◌, ◌^◌, ◌≤◌, ◌<◌, ◌≡◌, ◌↔◌, true, false, arith}
use cryptopeg.Errors.{Error, ok, err}
use cryptopeg.Vault.{Vault, audit_solvency, restore_state}

-- The audit tells a vault that is backed from one that is not, as long as supply and pool together
-- fit 64 bits.
pub audit_solvency_lem :
    (v : Vault)
    → v.circulating_supply + v.fee_pool_reserve < 2 ^ 64
    → (audit_solvency v ≡ true) ↔ (v.total_collateral ≡ v.circulating_supply + v.fee_pool_reserve)
unfolding audit_solvency
audit_solvency_lem v h = ground arith

-- `restore_state` assigns the balances also when it throws, which it does exactly if they fail
-- the audit.
pub restore_state_lem :
    (c circ fee : ℕ) (v : Vault)
    → let (r, v') = restore_state c circ fee v in
      (v' ≡ record v { total_collateral = c; circulating_supply = circ; fee_pool_reserve = fee })
      × ((r ≡ ok tt) ↔ (c ≡ (circ + fee) % 2 ^ 64))
      × ((r ≡ err Error.restore_inconsistent) ↔ (audit_solvency v' ≡ false))
unfolding restore_state
restore_state_lem c circ fee v = ground arith

-- Where supply and pool together pass 64 bits, the balances whose collateral is short by 2 ^ 64 are
-- restored with no error, and pass the audit, though they are not backed.
pub restore_state_wraps :
    (circ fee : ℕ) (v : Vault)
    → circ < 2 ^ 64
    → fee < 2 ^ 64
    → 2 ^ 64 ≤ circ + fee
    → let (r, v') = restore_state (circ + fee - 2 ^ 64) circ fee v in
      (r ≡ ok tt)
      × (audit_solvency v' ≡ true)
      × (v'.total_collateral < v'.circulating_supply + v'.fee_pool_reserve)
unfolding restore_state
restore_state_wraps circ fee v hc hf h = ground arith
