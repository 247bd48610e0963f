-- ===== src/Node/Balance.antt =====
-- src/node.cpp and src/vault.cpp: what a block moves in the vault is what its receipts say.
use cryptopeg.Prelude.{
  ℕ, ◌+◌, ◌-◌, ◌^◌, ◌≤◌, ◌<◌, ◌≡◌, refl, ap, ◌∙◌, arith, ◌==◌, List, [], ◌∷◌, length,
}
use cryptopeg.Amount.Fees.{fee-le}
use cryptopeg.Vault.{DepositReceipt, WithdrawalReceipt, Vault}
use cryptopeg.Vault.Solvency.{IsSolvent, fee_of, vault_after_deposit, vault_after_withdrawal}
use cryptopeg.Block.{OneTimeOutput}
use cryptopeg.Quorum.{contains_key}
use cryptopeg.Sodium.{Sodium}
use cryptopeg.Lmdb.{Lmdb, Txn}
use cryptopeg.Database.{is_deposit_tx_processed}
use cryptopeg.Node.{Refusal, accept, refuse_if, Node}
use cryptopeg.Node.Deposits.{
  check_deposit_amounts, check_deposit_keys, check_deposit, check_deposits,
}
use cryptopeg.Node.Burns.{Burning, check_withdrawal, check_withdrawals}
use cryptopeg.Node.Accepted.{>>=-accept, accept_injective}
use cryptopeg.Node.Fresh.{check_withdrawal-fresh}
use cryptopeg.Node.Ledger.{sum_of, deposit-accept, withdrawal-accept, deposit_amounts, burn_amounts}
use cryptopeg.Node.Denomination.{sum_amounts}

-- From a vault to a vault with the same rates, the supply by what was minted and burned, the collateral
-- by what came in and went out, and the pool by the fees.
pub record Moved (v v' : Vault) (gross minted burned paid fees : ℕ) : Type 0 where
  pub solvent : IsSolvent v'
  pub deposit_rate : v'.deposit_fee_bps ≡ v.deposit_fee_bps
  pub withdraw_rate : v'.withdraw_fee_bps ≡ v.withdraw_fee_bps
  pub collateral : v'.total_collateral + paid ≡ v.total_collateral + gross
  pub supply : v'.circulating_supply + burned ≡ v.circulating_supply + minted
  pub pool : v'.fee_pool_reserve ≡ v.fee_pool_reserve + fees

pub Moved-trans :
    (u v w : Vault) (g m b p f g' m' b' p' f' : ℕ)
    → Moved u v g m b p f
    → Moved v w g' m' b' p' f'
    → Moved u w (g + g') (m + m') (b + b') (p + p') (f + f')
Moved-trans u v w g m b p f g' m' b' p' f' x y = record {
  solvent = y.solvent;
  deposit_rate = y.deposit_rate ∙ x.deposit_rate;
  withdraw_rate = y.withdraw_rate ∙ x.withdraw_rate;
  collateral = omega (arith, x.collateral, y.collateral);
  supply = omega (arith, x.supply, y.supply);
  pool = omega (arith, x.pool, y.pool);
}

deposit-Moved :
    (g : ℕ) (v : Vault)
    → IsSolvent v
    → v.total_collateral + g < 2 ^ 64
    → let fee = fee_of g v.deposit_fee_bps in Moved v (vault_after_deposit g v) g (g - fee) 0 0 fee
deposit-Moved g v s fits = ground (arith, fee-le g v.deposit_fee_bps s.deposit_rate)

withdrawal-Moved :
    (t : ℕ) (v : Vault)
    → IsSolvent v
    → t ≤ v.circulating_supply
    → let fee = fee_of t v.withdraw_fee_bps in
      Moved v (vault_after_withdrawal t v) 0 0 t (t - fee) fee
withdrawal-Moved t v s some_supply = ground (arith, fee-le t v.withdraw_fee_bps s.withdraw_rate)

-- The sums of the receipts' amounts.
abbrev pub gross_of : List DepositReceipt → ℕ
gross_of = sum_of (λ (dep : DepositReceipt). dep.gross_usdt_deposited)

abbrev pub minted_of : List DepositReceipt → ℕ
minted_of = sum_of (λ (dep : DepositReceipt). dep.net_shielded_tokens_minted)

abbrev pub deposit_fees_of : List DepositReceipt → ℕ
deposit_fees_of = sum_of (λ (dep : DepositReceipt). dep.fee_to_pool)

abbrev pub burned_of : List WithdrawalReceipt → ℕ
burned_of = sum_of (λ (wdr : WithdrawalReceipt). wdr.gross_tokens_burned)

abbrev pub paid_of : List WithdrawalReceipt → ℕ
paid_of = sum_of (λ (wdr : WithdrawalReceipt). wdr.net_usdt_to_tumble)

abbrev pub withdrawal_fees_of : List WithdrawalReceipt → ℕ
withdrawal_fees_of = sum_of (λ (wdr : WithdrawalReceipt). wdr.fee_to_pool)

nothing-Moved : (v : Vault) → IsSolvent v → Moved v v 0 0 0 0 0
nothing-Moved v s = record {
  solvent = s;
  deposit_rate = refl;
  withdraw_rate = refl;
  collateral = refl;
  supply = refl;
  pool = omega arith;
}

-- The amounts of a withdrawal, as its receipt says them.
receipt-Moved :
    (v v' : Vault) (wdr : WithdrawalReceipt)
    → v' ≡ vault_after_withdrawal wdr.gross_tokens_burned v
    → wdr.fee_to_pool ≡ fee_of wdr.gross_tokens_burned v.withdraw_fee_bps
    → wdr.net_usdt_to_tumble + wdr.fee_to_pool ≡ wdr.gross_tokens_burned
    → let fee = fee_of wdr.gross_tokens_burned v.withdraw_fee_bps in
      Moved v
        (vault_after_withdrawal wdr.gross_tokens_burned v)
        0
        0
        wdr.gross_tokens_burned
        (wdr.gross_tokens_burned - fee)
        fee
      → Moved v v' 0 0 wdr.gross_tokens_burned wdr.net_usdt_to_tumble wdr.fee_to_pool
receipt-Moved v v' wdr after fee sum m = rw after (record {
  solvent = m.solvent;
  deposit_rate = refl;
  withdraw_rate = refl;
  collateral = omega (arith, m.collateral, fee, sum);
  supply = m.supply;
  pool = omega (arith, m.pool, fee);
})

module _ (sodium : Sodium) (lmdb : Lmdb) (reading : Txn) (node : Node sodium lmdb) where
  check_deposit-Moved :
      (dep : DepositReceipt) (out : OneTimeOutput) (seen : List (List ℕ)) (v v' : Vault)
      → IsSolvent v
      → v.deposit_fee_bps ≡ node.vault.deposit_fee_bps
      → check_deposit sodium lmdb reading node dep out seen v ≡ accept v'
      → Moved v v' dep.gross_usdt_deposited dep.net_shielded_tokens_minted 0 0 dep.fee_to_pool
        × (out.amount ≡ dep.net_shielded_tokens_minted)
  unfolding check_deposit
  check_deposit-Moved dep out seen v v' s rate h =
      let (_, _, h₁) =
        >>=-accept (refuse_if (length dep.tx_hash == 0) Refusal.no_deposit_hash) _ v' h in
      let (_, _, h₂) =
        >>=-accept
          (refuse_if (is_deposit_tx_processed sodium lmdb reading node.db dep.tx_hash)
            Refusal.deposit_replayed)
          _ v' h₁ in
      let (_, _, h₃) =
        >>=-accept (refuse_if (contains_key seen dep.tx_hash) Refusal.deposit_twice) _ v' h₂ in
      let (_, amounts, h₄) =
        >>=-accept (check_deposit_amounts node.vault.deposit_fee_bps dep out) _ v' h₃ in
      let (_, _, h₅) = >>=-accept (check_deposit_keys sodium dep out) _ v' h₄ in
      let (small, fits, after) = deposit-accept dep.gross_usdt_deposited dep.tx_hash v v' s h₅ in
      let (fee, sum, amount) =
        deposit_amounts v.deposit_fee_bps dep out s.deposit_rate small (rw (← rate) at amounts) in
      let m = deposit-Moved dep.gross_usdt_deposited v s fits in
      (
        rw after (record {
          solvent = m.solvent;
          deposit_rate = refl;
          withdraw_rate = refl;
          collateral = m.collateral;
          supply = omega (arith, m.supply, fee, sum);
          pool = omega (arith, m.pool, fee);
        }),
        amount,
      )

  pub check_deposits-Moved :
      (deps : List DepositReceipt) (outs : List OneTimeOutput) (seen : List (List ℕ)) (v v' : Vault)
      → IsSolvent v
      → v.deposit_fee_bps ≡ node.vault.deposit_fee_bps
      → check_deposits sodium lmdb reading node deps outs seen v ≡ accept v'
      → Moved v v' (gross_of deps) (minted_of deps) 0 0 (deposit_fees_of deps)
        × (sum_amounts outs ≡ minted_of deps)
  unfolding check_deposits sum_of sum_amounts
  check_deposits-Moved [] [] seen v v' s rate h =
      (rw (← accept_injective v v' h) (nothing-Moved v s), refl)
  check_deposits-Moved [] (out ∷ outs) seen v v' s rate h = cc (h)
  check_deposits-Moved (dep ∷ deps) [] seen v v' s rate h = cc (h)
  check_deposits-Moved (dep ∷ deps) (out ∷ outs) seen v v' s rate h =
      let (u, first, rest) =
        >>=-accept (check_deposit sodium lmdb reading node dep out seen v) _ v' h in
      let (m, amount) = check_deposit-Moved dep out seen v u s rate first in
      let (more, amounts) =
        check_deposits-Moved deps outs (dep.tx_hash ∷ seen) u v' m.solvent (m.deposit_rate ∙ rate)
          rest in
      (Moved-trans v u v' _ _ _ _ _ _ _ _ _ _ m more, omega (arith, amount, amounts))

  pub check_withdrawals-Moved :
      (wdrs : List WithdrawalReceipt) (outs : List OneTimeOutput) (b b' : Burning)
      → IsSolvent b.temp_vault
      → b.temp_vault.withdraw_fee_bps ≡ node.vault.withdraw_fee_bps
      → check_withdrawals sodium lmdb reading node wdrs outs b ≡ accept b'
      → Moved b.temp_vault b'.temp_vault 0 0
          (burned_of wdrs)
          (paid_of wdrs)
          (withdrawal_fees_of wdrs)
  unfolding check_withdrawals sum_of
  check_withdrawals-Moved [] outs b b' s rate h =
      rw (← ap (λ (c : Burning). c.temp_vault) (accept_injective b b' h))
        (nothing-Moved b.temp_vault s)
  check_withdrawals-Moved (wdr ∷ wdrs) outs b b' s rate h =
      let (c, first, rest) =
        >>=-accept (check_withdrawal sodium lmdb reading node wdr outs b) _ b' h in
      let (_, _, _, amounts, paid) =
        check_withdrawal-fresh sodium lmdb reading node wdr outs b c first in
      let (small, some_supply, after) =
        withdrawal-accept wdr.gross_tokens_burned b.temp_vault c.temp_vault s paid in
      let (fee, sum) =
        burn_amounts b.temp_vault.withdraw_fee_bps wdr s.withdraw_rate small
          (rw (← rate) at amounts) in
      let n = withdrawal-Moved wdr.gross_tokens_burned b.temp_vault s some_supply in
      let m = receipt-Moved b.temp_vault c.temp_vault wdr after fee sum n in
      let more = check_withdrawals-Moved wdrs outs c b' m.solvent (m.withdraw_rate ∙ rate) rest in
      Moved-trans b.temp_vault c.temp_vault b'.temp_vault _ _ _ _ _ _ _ _ _ _ m more
