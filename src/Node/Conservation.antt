-- ===== src/Node/Conservation.antt =====
-- src/node.cpp and src/vault.cpp: a block that is accepted conserves value.
use cryptopeg.Prelude.{ℕ, ◌+◌, ◌≡◌, sym, ap, ◌∙◌, arith, []}
use cryptopeg.Vault.{Vault, new_vault, restore_state}
use cryptopeg.Vault.Solvency.{IsSolvent}
use cryptopeg.Block.{Block}
use cryptopeg.Sodium.{Sodium}
use cryptopeg.Lmdb.{Lmdb}
use cryptopeg.Node.{accept, Node}
use cryptopeg.Node.Fork.{extends, fork_choice}
use cryptopeg.Node.Apply.{Transactions, accepted, copy_vault, take_effects, apply_remote_block}
use cryptopeg.Node.Checks.{check_block-Checked, start_burning}
use cryptopeg.Node.Accepts.{apply_remote_block-Incorporated}
use cryptopeg.Node.Denomination.{sum_amounts}
use cryptopeg.Node.Balance.{
  Moved, Moved-trans, gross_of, minted_of, deposit_fees_of, burned_of, paid_of, withdrawal_fees_of,
  check_deposits-Moved, check_withdrawals-Moved,
}

copy_vault-same : (v w : Vault) → copy_vault v ≡ accept w → w ≡ v
unfolding copy_vault restore_state new_vault
copy_vault-same v w h = ground arith

-- A vault restored to the balances of one with its rates.
pub restored-same :
    (u v : Vault)
    → u.deposit_fee_bps ≡ v.deposit_fee_bps
    → u.withdraw_fee_bps ≡ v.withdraw_fee_bps
    → (restore_state u.total_collateral u.circulating_supply u.fee_pool_reserve v).1 ≡ u
unfolding restore_state
restored-same u v d w = ground arith

Moved-sums :
    (u v : Vault) (g m b p f f' : ℕ)
    → Moved u v (g + 0) (m + 0) (0 + b) (0 + p) (f + f')
    → Moved u v g m b p (f + f')
Moved-sums u v g m b p f f' x = record {
  solvent = x.solvent;
  deposit_rate = x.deposit_rate;
  withdraw_rate = x.withdraw_rate;
  collateral = omega (arith, x.collateral);
  supply = omega (arith, x.supply);
  pool = x.pool;
}

relocated :
    (u u' v v' : Vault) (g m b p f : ℕ)
    → u ≡ u'
    → v ≡ v'
    → Moved u v g m b p f
    → Moved u' v' g m b p f
relocated u u' v v' g m b p f e d x = rw (← e, ← d) x

-- A node whose vault is solvent accepts a block that extends the chain. Then its vault is solvent and
-- has the same rates, its supply has grown by what the deposits minted less what the withdrawals burned,
-- its collateral by what the deposits brought less what the withdrawals paid out, and its pool by the
-- fees of both, as the receipts in the block say; and the outputs of the deposits hold what was minted.
pub apply_remote_block-conserves :
    (sodium : Sodium) (lmdb : Lmdb) (txns : Transactions) (block : Block)
    (node node' : Node sodium lmdb)
    → IsSolvent node.vault
    → fork_choice sodium lmdb txns.reading block node ≡ extends
    → apply_remote_block sodium lmdb txns block node ≡ (accepted, node')
    → Moved node.vault node'.vault
        (gross_of block.deposits)
        (minted_of block.deposits)
        (burned_of block.withdrawals)
        (paid_of block.withdrawals)
        (deposit_fees_of block.deposits + withdrawal_fees_of block.withdrawals)
      × (sum_amounts block.deposit_outputs ≡ minted_of block.deposits)
unfolding take_effects start_burning
apply_remote_block-conserves sodium lmdb txns block node node' s e h =
    let i = apply_remote_block-Incorporated sodium lmdb txns block node node' e h in
    let c = check_block-Checked sodium lmdb txns.reading node block i.effects i.checked in
    let same = copy_vault-same node.vault c.temp_vault c.copied in
    let (d, outputs) =
      check_deposits-Moved sodium lmdb txns.reading node block.deposits block.deposit_outputs []
        c.temp_vault c.with_deposits (rw same s) (ap (λ (v : Vault). v.deposit_fee_bps) same)
        c.deposited in
    let w =
      check_withdrawals-Moved sodium lmdb txns.reading node block.withdrawals
        block.withdrawal_outputs
        (start_burning sodium lmdb txns.reading node block.withdrawal_outputs _ c.with_deposits)
        c.burning d.solvent (d.withdraw_rate ∙ ap (λ (v : Vault). v.withdraw_fee_bps) same)
        c.burnt in
    let whole =
      Moved-trans c.temp_vault c.with_deposits c.burning.temp_vault _ _ _ _ _ _ _ _ _ _ d w in
    let burnt = c.burning.temp_vault in
    let final : node'.vault ≡ burnt =
      ap (λ (n : Node sodium lmdb). n.vault) i.after
      ∙ restored-same i.effects.vault node.vault
          (ap (λ (v : Vault). v.deposit_fee_bps) c.vault
            ∙ whole.deposit_rate
            ∙ ap (λ (v : Vault). v.deposit_fee_bps) same)
          (ap (λ (v : Vault). v.withdraw_fee_bps) c.vault
            ∙ whole.withdraw_rate
            ∙ ap (λ (v : Vault). v.withdraw_fee_bps) same)
      ∙ c.vault in
    (
      relocated c.temp_vault node.vault burnt node'.vault _ _ _ _ _ same (sym final)
          (Moved-sums c.temp_vault burnt _ _ _ _ _ _ whole),
      outputs,
    )
