-- ===== src/Node/Ledger.antt =====
-- src/node.cpp and src/vault.cpp: the vault after the loops over the deposits and the withdrawals.
use cryptopeg.Prelude.{ℕ, ◌+◌, ◌^◌, ◌≤◌, ◌<◌, ◌≡◌, sym, ap, ◌∙◌, arith, inl, inr, List, [], ◌∷◌}
use cryptopeg.Errors.{Error, Result, ok, err}
use cryptopeg.Amount.{max_transaction_amount}
use cryptopeg.Amount.Fees.{fee-le, safe_fee_calc_limit}
use cryptopeg.Vault.{DepositReceipt, WithdrawalReceipt, Vault}
use cryptopeg.Vault
use cryptopeg.Vault.Solvency.{
  IsSolvent, fee_of, vault_after_deposit, vault_after_withdrawal, Returned, deposit_lem,
  request_withdrawal_lem,
}
use cryptopeg.Block.{OneTimeOutput}
use cryptopeg.Node.{Refusal, accept}
use cryptopeg.Node.Deposits.{vault_after, check_deposit_amounts}
use cryptopeg.Node.Burns.{check_burn_amounts}
use cryptopeg.Node.Accepted.{vault_after-accept}

-- The sum of a field.
unfoldable pub sum_of : {A : Type 0} → (A → ℕ) → List A → ℕ
sum_of f [] = 0
sum_of f (x ∷ xs) = f x + sum_of f xs

returned :
    {A : Type 0} (P : A → Type 0) (w v : Vault) (m : Result A × Vault) (a : A)
    → Returned P w m
    → m ≡ (ok a, v)
    → v ≡ w
returned P w v (ok b, u) a (p, e) h = sym (ap (λ (q : Result _ × Vault). q.1) h) ∙ e
returned P w v (err x, u) a r h = absurd r

not_thrown :
    {A : Type 0} (m : Result A × Vault) (x : Error) (a : A) (v v' : Vault)
    → m ≡ (ok a, v')
    → m ≡ (err x, v)
    → ⊥
not_thrown m x a v v' e h = cc (ap (λ (q : Result _ × Vault). q.0) (sym e ∙ h))

-- A deposit that a solvent vault takes.
pub deposit-accept :
    (g : ℕ) (hash : List ℕ) (v v' : Vault)
    → IsSolvent v
    → vault_after Refusal.deposit_refused (Vault.deposit g hash [] v) ≡ accept v'
    → (g ≤ max_transaction_amount)
      × (v.total_collateral + g < 2 ^ 64)
      × (v' ≡ vault_after_deposit g v)
deposit-accept g hash v v' s h =
    let (a, e) = vault_after-accept Refusal.deposit_refused (Vault.deposit g hash [] v) v' h in
    elim (deposit_lem g hash [] v s) [
      | inl (_, thrown) ↦ absurd (not_thrown _ _ a v v' e thrown)
      | inr (inl (_, thrown)) ↦ absurd (not_thrown _ _ a v v' e thrown)
      | inr (inr (inl (_, _, _, thrown))) ↦ absurd (not_thrown _ _ a v v' e thrown)
      | inr (inr (inr (_, small, fits, done))) ↦ (small, fits, returned _ _ v' _ a done e)
    ]

pub withdrawal-accept :
    (t : ℕ) (v v' : Vault)
    → IsSolvent v
    → vault_after Refusal.withdrawal_refused (Vault.request_withdrawal t [] v) ≡ accept v'
    → (t ≤ max_transaction_amount) × (t ≤ v.circulating_supply) × (v' ≡ vault_after_withdrawal t v)
withdrawal-accept t v v' s h =
    let (a, e) =
      vault_after-accept Refusal.withdrawal_refused (Vault.request_withdrawal t [] v) v' h in
    elim (request_withdrawal_lem t [] v s) [
      | inl (_, thrown) ↦ absurd (not_thrown _ _ a v v' e thrown)
      | inr (inl (_, thrown)) ↦ absurd (not_thrown _ _ a v v' e thrown)
      | inr (inr (inl (_, _, _, thrown))) ↦ absurd (not_thrown _ _ a v v' e thrown)
      | inr (inr (inr (_, small, some_supply, done))) ↦
          (small, some_supply, returned _ _ v' _ a done e)
    ]

-- The amounts of a receipt that passes.
pub deposit_amounts :
    (bps : ℕ) (dep : DepositReceipt) (out : OneTimeOutput)
    → bps ≤ 10000
    → dep.gross_usdt_deposited ≤ max_transaction_amount
    → check_deposit_amounts bps dep out ≡ accept tt
    → (dep.fee_to_pool ≡ fee_of dep.gross_usdt_deposited bps)
      × (dep.net_shielded_tokens_minted + dep.fee_to_pool ≡ dep.gross_usdt_deposited)
      × (out.amount ≡ dep.net_shielded_tokens_minted)
unfolding check_deposit_amounts
deposit_amounts bps dep out rate small h = ground (
  arith,
  safe_fee_calc_limit dep.gross_usdt_deposited bps rate small,
  fee-le dep.gross_usdt_deposited bps rate,
)

pub burn_amounts :
    (bps : ℕ) (wdr : WithdrawalReceipt)
    → bps ≤ 10000
    → wdr.gross_tokens_burned ≤ max_transaction_amount
    → check_burn_amounts bps wdr ≡ accept tt
    → (wdr.fee_to_pool ≡ fee_of wdr.gross_tokens_burned bps)
      × (wdr.net_usdt_to_tumble + wdr.fee_to_pool ≡ wdr.gross_tokens_burned)
unfolding check_burn_amounts
burn_amounts bps wdr rate small h = ground (
  arith,
  safe_fee_calc_limit wdr.gross_tokens_burned bps rate small,
  fee-le wdr.gross_tokens_burned bps rate,
)
