-- ===== src/Node/Apply.antt =====
-- src/node.cpp: `apply_remote_block`.
use cryptopeg.Prelude.{ℕ, Bool, true, false, not, ◌==◌, List, [], ◌∷◌, ◌++◌, length, replicate}
use cryptopeg.Errors.{Result, ok, err}
use cryptopeg.Vault.{Vault, new_vault, audit_solvency, restore_state}
use cryptopeg.Block.{OneTimeOutput, Block}
use cryptopeg.KeyImages.{KeyImageLedger, register_key_image}
use cryptopeg.Sodium.{Sodium}
use cryptopeg.Lmdb.{Lmdb, Txn}
use cryptopeg.Database.{Database}
use cryptopeg.Database.Commit.{commit_block}
use cryptopeg.Database.Rollback.{rollback_top_block}
use cryptopeg.Database.Contents.{tx_outputs, block_images}
use cryptopeg.Node.{
  Refusal, Verdict, refuse, accept, threw, ◌>>=◌, ◌>>◌, refuse_if, Node, recover_state_from_db,
}
use cryptopeg.Node.Fork.{Fork, extends, same, refused, replaces, fork_choice}
use cryptopeg.Node.Header.{check_header, check_authority}
use cryptopeg.Node.Deposits.{check_deposits}
use cryptopeg.Node.Transfers.{check_txs}
use cryptopeg.Node.Burns.{check_change_outputs, check_withdrawals}

-- How the transactions of the database end: those that read, the rollback, the commit of the block,
-- and the commit of the block that was rolled back.
pub record Transactions : Type 0 where
  pub reading : Txn
  pub rolling : Txn
  pub committing : Txn
  pub restoring : Txn

-- What a block that passes brings: the vault, the images and the outputs.
pub record Effects : Type 0 where
  pub vault : Vault
  pub spent_images : List (List ℕ)
  pub new_utxos : List OneTimeOutput

-- How the method ends. An exception in the destructor of `ReorgGuard` ends the program.
pub data Outcome : Type 0 where
  accepted : Outcome
  rejected : Refusal → Outcome
  terminated : Outcome

-- The vault whose fees and balances are those of another. `restore_state` may throw.
unfoldable pub copy_vault : Vault → Verdict Vault
copy_vault v =
    let blank = new_vault v.deposit_fee_bps v.withdraw_fee_bps in
    let (r, v') = restore_state v.total_collateral v.circulating_supply v.fee_pool_reserve blank in
    elim r [ err e ↦ refuse (threw e) | ok _ ↦ accept v' ]

-- The outputs of a block in the order in which the destructor of `ReorgGuard` lists them.
unfoldable pub restored_outputs : Block → List OneTimeOutput
restored_outputs b = b.deposit_outputs ++ (tx_outputs b.txs ++ b.withdrawal_outputs)

module _ (sodium : Sodium) where
  unfoldable pub register_all : List (List ℕ) → KeyImageLedger → KeyImageLedger
  register_all [] ledger = ledger
  register_all (image ∷ images) ledger =
      register_all images (register_key_image sodium image ledger).1

module _ (sodium : Sodium) (lmdb : Lmdb) where
  -- The tests of a block, from its height to the audit of the vault.
  unfoldable pub check_block : Txn → Node sodium lmdb → Block → Verdict Effects
  check_block reading node block = do
    check_header sodium node.db.top_height node.db.top_hash block
    check_authority sodium node.authorized_validators node.validator_quorum_threshold block
        block.deposits
    temp_vault ← copy_vault node.vault
    refuse_if (not (length block.deposits == length block.deposit_outputs)) Refusal.deposit_count
    with_deposits ←
        check_deposits sodium lmdb reading node block.deposits block.deposit_outputs [] temp_vault
    (spent_images, new_utxos) ←
        check_txs sodium lmdb reading node block.header.height block.txs [] []
    check_change_outputs sodium block.withdrawal_outputs
    b ←
        check_withdrawals sodium lmdb reading node block.withdrawals block.withdrawal_outputs
          (record {
            output_claimed = replicate (length block.withdrawal_outputs) false;
            expected_change_count = 0;
            spent_images = spent_images;
            temp_vault = with_deposits;
          })
    refuse_if (not (length block.withdrawal_outputs == b.expected_change_count))
        Refusal.orphan_change
    refuse_if (not (audit_solvency b.temp_vault)) Refusal.insolvent
    accept (record {
      vault = b.temp_vault;
      spent_images = b.spent_images;
      new_utxos = (new_utxos ++ block.deposit_outputs) ++ block.withdrawal_outputs;
    })

  -- The state in memory with what a block brings. The vault passed its audit, so `restore_state` does
  -- not throw.
  unfoldable pub take_effects : Block → Effects → Node sodium lmdb → Node sodium lmdb
  take_effects block e node = record node {
    vault =
        (restore_state e.vault.total_collateral e.vault.circulating_supply e.vault.fee_pool_reserve
          node.vault).1;
    key_image_ledger = register_all sodium e.spent_images node.key_image_ledger;
    utxo_pool = node.utxo_pool ++ e.new_utxos;
    tx_history = node.tx_history ++ block.txs;
  }

  -- Whether the block was committed, and the node then.
  abbrev pub persisted :
      Node sodium lmdb → Result (Unit {0}) × Database sodium lmdb → Outcome × Node sodium lmdb
  persisted node (ok _, db) = (accepted, record node { db = db })
  persisted node (err e, db) = (rejected Refusal.commit_failed, record node { db = db })

  unfoldable pub incorporate :
      Txn → Block → Node sodium lmdb → Verdict Effects → Outcome × Node sodium lmdb
  incorporate committing block node (refuse r) = (rejected r, node)
  incorporate committing block node (accept e) =
      let node' = take_effects block e node in
      persisted node'
        (commit_block sodium lmdb committing block node'.vault e.new_utxos e.spent_images node'.db)

  -- The guard where there was no rollback: after a failure the memory is read again.
  abbrev pub guard : Txn → Outcome × Node sodium lmdb → Outcome × Node sodium lmdb
  guard reading (accepted, node) = (accepted, node)
  guard reading (rejected r, node) = (rejected r, recover_state_from_db sodium lmdb reading node)
  guard reading (terminated, node) = (terminated, node)

  abbrev pub restored :
      Txn
      → Refusal
      → Node sodium lmdb
      → Result (Unit {0}) × Database sodium lmdb
      → Outcome × Node sodium lmdb
  restored reading r node (ok _, db) =
      (rejected r, recover_state_from_db sodium lmdb reading (record node { db = db }))
  restored reading r node (err e, db) = (terminated, record node { db = db })

  -- The guard where the top was rolled back: after a failure it is committed again, with the vault
  -- that was saved.
  abbrev pub guard_reorg :
      Transactions → Block → Vault → Outcome × Node sodium lmdb → Outcome × Node sodium lmdb
  guard_reorg txns local saved (accepted, node) = (accepted, node)
  guard_reorg txns local saved (rejected r, node) = restored txns.reading r node (
      commit_block sodium lmdb txns.restoring local saved (restored_outputs local)
        (block_images local) node.db)
  guard_reorg txns local saved (terminated, node) = (terminated, node)

  -- After the rollback of the top, if it succeeded.
  abbrev pub reorganize :
      Transactions
      → Block
      → Block
      → Node sodium lmdb
      → Bool × Database sodium lmdb
      → Outcome × Node sodium lmdb
  reorganize txns block local node (false, db) =
      (rejected Refusal.rollback_failed, record node { db = db })
  reorganize txns block local node (true, db) =
      let lowered = recover_state_from_db sodium lmdb txns.reading (record node { db = db }) in
      guard_reorg txns local node.vault
        (incorporate txns.committing block lowered (check_block txns.reading lowered block))

  unfoldable pub follow :
      Transactions → Block → Node sodium lmdb → Fork → Outcome × Node sodium lmdb
  follow txns block node extends =
      guard txns.reading
        (incorporate txns.committing block node (check_block txns.reading node block))
  follow txns block node same = (accepted, node)
  follow txns block node (refused r) = (rejected r, node)
  follow txns block node (replaces local) =
      reorganize txns block local node (rollback_top_block sodium lmdb txns.rolling node.db)

  unfoldable pub apply_remote_block :
      Transactions → Block → Node sodium lmdb → Outcome × Node sodium lmdb
  apply_remote_block txns block node =
      follow txns block node (fork_choice sodium lmdb txns.reading block node)
