-- ===== src/Vault/Runs.antt =====
-- Runs of the vault, and its theorems at concrete inputs.
use cryptopeg.Prelude.{◌+◌, ◌%◌, ◌^◌, ◌<◌, ◌≡◌, ◌↔◌, refl, true, false, arith, List, [], ◌∷◌}
use cryptopeg.Errors.{Error, ok, err}
use cryptopeg.Amount.{safe_fee_calc}
use cryptopeg.Hex.{is_valid_evm_address}
use cryptopeg.Vault.{
  Vault, audit_solvency, deposit, request_withdrawal, claim_fees, restore_state, set_fee_bps,
  new_vault,
}
use cryptopeg.Vault.Solvency.{
  IsSolvent, DepositCases, WithdrawalCases, ClaimCases, deposit_lem, request_withdrawal_lem,
  claim_fees_lem,
}
use cryptopeg.Vault.Restore.{restore_state_lem, restore_state_wraps}
use cryptopeg.Vault.History.{
  Call, deposit_call, withdraw_call, claim_call, fee_call, perform_all, perform_all_conserves,
}

-- 1000 USDT deposited at half a percent.
abbrev vault : Vault
vault = record {
  total_collateral = 1_000_000_000;
  circulating_supply = 995_000_000;
  fee_pool_reserve = 5_000_000;
  deposit_fee_bps = 50;
  withdraw_fee_bps = 50;
}

abbrev calls : List Call
calls =
    deposit_call 200_000_000 [] (7 ∷ [])
    ∷ withdraw_call 100_000_000 (8 ∷ [])
    ∷ withdraw_call 0 (8 ∷ [])
    ∷ fee_call 20 30
    ∷ claim_call 1_000_000 [] (9 ∷ [])
    ∷ []

deposit_run : (deposit 1_000_000_000 (b'a' ∷ []) [] (new_vault 50 50)).1 ≡ vault
unfolding deposit safe_fee_calc new_vault
deposit_run = refl

deposit_zero_run : deposit 0 [] [] vault ≡ (err Error.deposit_zero, vault)
unfolding deposit
deposit_zero_run = refl

-- The withdrawal of 0 and the claim to an empty address fail; the others go through.
calls_run : (perform_all calls vault).0 ≡ 200_000_000
unfolding perform_all deposit request_withdrawal claim_fees safe_fee_calc is_valid_evm_address
    set_fee_bps
calls_run = refl

paid_out_run : (perform_all calls vault).1 ≡ 99_500_000
unfolding perform_all deposit request_withdrawal claim_fees safe_fee_calc is_valid_evm_address
    set_fee_bps
paid_out_run = refl

perform_all_conserves_example :
    let (paid_in, paid_out, v') = perform_all calls vault in
    IsSolvent v' × (1_000_000_000 + paid_in ≡ v'.total_collateral + paid_out)
perform_all_conserves_example = perform_all_conserves calls vault (omega arith)

deposit_lem_example : DepositCases 5 [] (3 ∷ []) vault
deposit_lem_example = deposit_lem 5 [] (3 ∷ []) vault (omega arith)

request_withdrawal_lem_example : WithdrawalCases 2_000_000 (3 ∷ []) vault
request_withdrawal_lem_example = request_withdrawal_lem 2_000_000 (3 ∷ []) vault (omega arith)

claim_fees_lem_example : ClaimCases 2_000_000 [] (3 ∷ []) vault
claim_fees_lem_example = claim_fees_lem 2_000_000 [] (3 ∷ []) vault (omega arith)

-- A collateral of 1 for a supply of 2: the balances are assigned all the same.
restore_state_lem_example :
    let (r, v') = restore_state 1 2 0 vault in
    (v' ≡ record vault { total_collateral = 1; circulating_supply = 2; fee_pool_reserve = 0 })
    × ((r ≡ ok tt) ↔ (1 ≡ (2 + 0) % 2 ^ 64))
    × ((r ≡ err Error.restore_inconsistent) ↔ (audit_solvency v' ≡ false))
restore_state_lem_example = restore_state_lem 1 2 0 vault

restore_state_wraps_example :
    let (r, v') = restore_state 0 (2 ^ 63) (2 ^ 63) vault in
    (r ≡ ok tt)
    × (audit_solvency v' ≡ true)
    × (v'.total_collateral < v'.circulating_supply + v'.fee_pool_reserve)
restore_state_wraps_example =
    restore_state_wraps (2 ^ 63) (2 ^ 63) vault (omega arith) (omega arith) (omega arith)
