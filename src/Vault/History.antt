-- ===== src/Vault/History.antt =====
-- Sequences of calls on a vault: what came in, what went out, and what is left.
use cryptopeg.Prelude.{ℕ, ◌+◌, ◌≡◌, arith, List, [], ◌∷◌}
use cryptopeg.Errors.{Result, ok, err}
use cryptopeg.Amount.Fees.{fee-le, safe_fee_calc_limit}
use cryptopeg.Vault.{
  Vault, DepositReceipt, WithdrawalReceipt, ClaimReceipt, deposit, request_withdrawal, claim_fees,
  set_fee_bps,
}
use cryptopeg.Vault.Solvency.{IsSolvent}

-- A call of a method, with its arguments and the random bytes that it draws.
pub data Call : Type 0 where
  deposit_call : ℕ → List ℕ → List ℕ → Call
  withdraw_call : ℕ → List ℕ → Call
  claim_call : ℕ → List ℕ → List ℕ → Call
  fee_call : ℕ → ℕ → Call

abbrev pub Flow : Type 0
Flow = ℕ × ℕ × Vault

-- The USDT that a call brought in, the USDT that it released, and the vault behind it; an
-- exception goes to the caller, who goes on.
abbrev deposit_flow : Result DepositReceipt × Vault → Flow
deposit_flow (ok r, v) = (r.gross_usdt_deposited, 0, v)
deposit_flow (err e, v) = (0, 0, v)

abbrev withdraw_flow : Result WithdrawalReceipt × Vault → Flow
withdraw_flow (ok r, v) = (0, r.net_usdt_to_tumble, v)
withdraw_flow (err e, v) = (0, 0, v)

abbrev claim_flow : Result ClaimReceipt × Vault → Flow
claim_flow (ok r, v) = (0, r.amount_claimed, v)
claim_flow (err e, v) = (0, 0, v)

unfoldable pub perform : Call → Vault → Flow
perform (deposit_call g custom random) v = deposit_flow (deposit g custom random v)
perform (withdraw_call t order_bytes) v = withdraw_flow (request_withdrawal t order_bytes v)
perform (claim_call a address tx_bytes) v = claim_flow (claim_fees a address tx_bytes v)
perform (fee_call d w) v = (0, 0, (set_fee_bps d w v).1)

unfoldable pub perform_all : List Call → Vault → Flow
unfolding perform
perform_all [] v = (0, 0, v)
perform_all (c ∷ cs) v =
    let (paid_in, paid_out, v') = perform c v in
    let (rest_in, rest_out, w) = perform_all cs v' in (paid_in + rest_in, paid_out + rest_out, w)

abbrev Balanced : Vault → Flow → Type 0
Balanced v (paid_in, paid_out, v') =
    IsSolvent v' × (v.total_collateral + paid_in ≡ v'.total_collateral + paid_out)

deposit-Balanced :
    (g : ℕ) (custom random : List ℕ) (v : Vault)
    → IsSolvent v
    → Balanced v (deposit_flow (deposit g custom random v))
unfolding deposit
deposit-Balanced g custom random v s = ground (
  arith,
  safe_fee_calc_limit g v.deposit_fee_bps s.deposit_rate,
  fee-le g v.deposit_fee_bps s.deposit_rate,
)

withdraw_Balanced :
    (t : ℕ) (order_bytes : List ℕ) (v : Vault)
    → IsSolvent v
    → Balanced v (withdraw_flow (request_withdrawal t order_bytes v))
unfolding request_withdrawal
withdraw_Balanced t order_bytes v s = ground (
  arith,
  safe_fee_calc_limit t v.withdraw_fee_bps s.withdraw_rate,
  fee-le t v.withdraw_fee_bps s.withdraw_rate,
)

claim_Balanced :
    (a : ℕ) (address tx_bytes : List ℕ) (v : Vault)
    → IsSolvent v
    → Balanced v (claim_flow (claim_fees a address tx_bytes v))
unfolding claim_fees
claim_Balanced a address tx_bytes v s = ground arith

perform-Balanced : (c : Call) (v : Vault) → IsSolvent v → Balanced v (perform c v)
unfolding perform set_fee_bps
perform-Balanced (deposit_call g custom random) v s = deposit-Balanced g custom random v s
perform-Balanced (withdraw_call t order_bytes) v s = withdraw_Balanced t order_bytes v s
perform-Balanced (claim_call a address tx_bytes) v s = claim_Balanced a address tx_bytes v s
perform-Balanced (fee_call d w) v s = ground arith

-- After any sequence of calls, failed ones included, a solvent vault is solvent, and what it held and
-- took in is what it holds and paid out.
pub perform_all_conserves :
    (cs : List Call) (v : Vault)
    → IsSolvent v
    → let (paid_in, paid_out, v') = perform_all cs v in
      IsSolvent v' × (v.total_collateral + paid_in ≡ v'.total_collateral + paid_out)
unfolding perform_all
perform_all_conserves [] v s = (s, omega arith)
perform_all_conserves (c ∷ cs) v s =
    let (paid_in, paid_out, v') = perform c v in
    let (s', here) = perform-Balanced c v s in
    let (s'', later) = perform_all_conserves cs v' s' in (s'', omega arith)
