-- ===== src/Node/OneTx.antt =====
-- src/node.cpp: how `apply_remote_block` takes a block of one shielded transaction.
use mathlib.Core.List.{append-nil}
use cryptopeg.Prelude.{
  ℕ, ◌+◌, ◌%◌, ◌^◌, ◌≡◌, refl, arith, true, List, [], ◌∷◌, bytes_eq_refl, ==_iff,
}
use cryptopeg.Vault.{Vault, new_vault, audit_solvency, restore_state}
use cryptopeg.Vault.Solvency.{IsSolvent}
use cryptopeg.Vault.Restore.{audit_solvency_lem}
use cryptopeg.Block.{ShieldedTransaction, BlockHeader, Block, new_block}
use cryptopeg.Merkle.{
  deposit_leaves, withdrawal_leaves, output_leaves, block_leaves, climb, tree_root,
  compute_merkle_root,
}
use cryptopeg.Sodium.{Sodium}
use cryptopeg.Lmdb.{Lmdb, Txn}
use cryptopeg.Node.{accept, Node}
use cryptopeg.Node.Header.{check_header, check_authority}
use cryptopeg.Node.Deposits.{check_deposits}
use cryptopeg.Node.Transfers.{check_tx, check_txs}
use cryptopeg.Node.Burns.{check_change_outputs, check_withdrawals}
use cryptopeg.Node.Apply.{Effects, copy_vault, register_all, check_block, take_effects}
use cryptopeg.Node.Conservation.{restored-same}
use cryptopeg.Node.Submit.{take_tx}

-- A block of one transaction.
abbrev pub one_tx : BlockHeader → ShieldedTransaction → Block
one_tx header tx = record new_block { header = header; txs = tx ∷ [] }

audit_solvency-IsSolvent : (v : Vault) → IsSolvent v → audit_solvency v ≡ true
audit_solvency-IsSolvent v s = (audit_solvency_lem v (rw (← s.backed) s.fits)).1 s.backed

copy_vault-IsSolvent : (v : Vault) → IsSolvent v → copy_vault v ≡ accept v
unfolding copy_vault restore_state new_vault audit_solvency
copy_vault-IsSolvent v s = ground (arith, s.backed, s.fits)

module _ (sodium : Sodium) (lmdb : Lmdb) where
  -- What one transaction brings.
  abbrev pub effects_of : ShieldedTransaction → Node sodium lmdb → Effects
  effects_of tx node = record {
    vault = node.vault;
    spent_images = tx.ring_sig.key_image ∷ [];
    new_utxos = tx.outputs;
  }

  pub check_block-one :
      (reading : Txn) (node : Node sodium lmdb) (header : BlockHeader) (tx : ShieldedTransaction)
      → IsSolvent node.vault
      → check_header sodium node.db.top_height node.db.top_hash (one_tx header tx) ≡ accept tt
      → check_authority sodium node.authorized_validators node.validator_quorum_threshold
          (one_tx header tx)
          []
        ≡ accept tt
      → check_tx sodium lmdb reading node header.height tx [] ≡ accept tt
      → check_block sodium lmdb reading node (one_tx header tx) ≡ accept (effects_of tx node)
  unfolding check_block check_deposits check_txs check_change_outputs check_withdrawals
  check_block-one reading node header tx s headed authorized checked =
      rw
        (
          headed,
          authorized,
          copy_vault-IsSolvent node.vault s,
          checked,
          audit_solvency-IsSolvent node.vault s,
          append-nil tx.outputs,
          append-nil tx.outputs,
        )
        refl

  pub take_effects-one :
      (header : BlockHeader) (tx : ShieldedTransaction) (node : Node sodium lmdb)
      → take_effects sodium lmdb (one_tx header tx) (effects_of tx node) node
        ≡ take_tx sodium lmdb tx node
  unfolding take_effects register_all take_tx
  take_effects-one header tx node = rw (restored-same node.vault node.vault refl refl) refl

  pub check_header-one :
      (header : BlockHeader) (tx : ShieldedTransaction) (height : ℕ) (hash : List ℕ)
      → header.height ≡ (height + 1) % 2 ^ 64
      → header.prev_block_hash ≡ hash
      → header.merkle_root ≡ tx.tx_hash
      → check_header sodium height hash (one_tx header tx) ≡ accept tt
  unfolding check_header compute_merkle_root block_leaves deposit_leaves withdrawal_leaves
      output_leaves tree_root climb
  check_header-one header tx height hash h p m =
      rw
        (
          h,
          p,
          m,
          bytes_eq_refl hash,
          bytes_eq_refl tx.tx_hash,
          (==_iff ((height + 1) % 2 ^ 64) ((height + 1) % 2 ^ 64)).1 refl,
        )
        refl
