-- ===== src/Node/Runs.antt =====
-- Runs of the node on a block with a deposit and a shielded transaction, and its theorems at concrete
-- inputs.
use cryptopeg.Prelude.{
  ℕ, List, replicate, ◌+◌, ◌≡◌, refl, arith, true, some, [], ◌∷◌, All, bytes_eq, ◌⊎◌,
}
use cryptopeg.Amount.{safe_fee_calc}
use cryptopeg.Vault.{ClaimReceipt, claim_fees, new_vault, deposit, restore_state}
use cryptopeg.Serial.{
  write_le, write_u32, write_u64, write_bytes, write_string, write_each, write_all,
}
use cryptopeg.Block.Encode.{serialize_tx, serialize_deposit, serialize}
use cryptopeg.Quorum.{
  sign, add_quorum_signature, find_pos, insert_at, contains_key, all_zero, signing_hash,
  verify_signature, count_entry, count_entries, count_validator, verified_keys, verify_quorum,
}
use cryptopeg.Merkle.{
  deposit_leaf, deposit_leaves, withdrawal_leaves, output_leaves, block_leaves, next_level, climb,
  tree_root, compute_merkle_root,
}
use cryptopeg.Ring.{
  hashed_output, distinct_keys, hash_to_point, ring_hash_challenge, compute_canonical_tx_hash,
  is_large_order, left_point, right_point, next_challenge, same_challenge, valid_points, walk_ring,
  is_well_formed, verify,
}
use cryptopeg.KeyImages.{register_key_image, finds, is_spent}
use cryptopeg.Database.{
  save_vault_state, is_key_image_spent, is_deposit_tx_processed, load_all_utxos,
}
use cryptopeg.Database.Commit.{put_images, put_utxos, put_deposits, write_block, commit_block}
use cryptopeg.Node.Header.{check_header, check_authority}
use cryptopeg.Node.Deposits.{
  check_deposit_keys, check_deposit_amounts, check_deposit, check_deposits,
}
use cryptopeg.Node.Transfers.{
  amount_of, total_spent, ring_denomination, hash_valid, spent_here, spent_already, check_tx,
  check_txs,
}
use cryptopeg.Node.Burns.{check_change_outputs, check_withdrawals}
use cryptopeg.Node.Spending.{SpentImages, apply_remote_block-spends}
use cryptopeg.Vault.Solvency.{IsSolvent}
use cryptopeg.Node.Balance.{
  Moved, gross_of, minted_of, burned_of, paid_of, deposit_fees_of, withdrawal_fees_of,
}
use cryptopeg.Node.Denomination.{sum_amounts, IsBalanced, apply_remote_block-IsBalanced}
use cryptopeg.Node.Conservation.{apply_remote_block-conserves}
use cryptopeg.Block.{Block}
use cryptopeg.Node.Refused.{apply_remote_block-refused}
use cryptopeg.Node.Choice.{Reorganizing, Refusing, apply_remote_block-one_keeps}
use cryptopeg.Node.Rival.{rival, topped, rival-Competes, block-Competes, block_bytes, rival_bytes}
use cryptopeg.Node.Recipient.{recipient, create_one_time_output-check_deposit_keys}
use cryptopeg.Stealth.{create_one_time_output}
use cryptopeg.Errors.{ok}
use cryptopeg.Sodium.Toy.{toy, odd_key}
use cryptopeg.Lmdb.Toy.{sound, association, association-IsMap}
use cryptopeg.Node.{recover_state_from_db, Node, Refusal, accept, history}
use cryptopeg.Node.Accepts.{checked_on}
use cryptopeg.Node.Fork.{Fork, fork_choice, extends}
use cryptopeg.Node.Apply.{
  accepted, check_block, apply_remote_block, copy_vault, take_effects, incorporate, follow,
  rejected,
}
use cryptopeg.Node.Header.{check_authority}
use cryptopeg.Node.OneTx.{one_tx}
use cryptopeg.Hex.{is_valid_evm_address, evm_digits, to_hex}
use cryptopeg.Node.Treasury.{claim_treasury_fees, claim_treasury_fees-recover_state_from_db}
use cryptopeg.Node.Mined.{mined_header, submit_pre_signed_transaction-apply_remote_block}
use cryptopeg.Node.Submit.{
  submitted_denomination, submitted_total, check_submitted, next_block, sign_block,
  submit_pre_signed_transaction, mine_block, take_tx,
}
use cryptopeg.Node.Sample.{
  transaction, node, block, transactions, block-IsSendable, header, receipt, output,
}

abbrev after : Node toy association
after = (apply_remote_block toy association transactions block node).1

extends_run : fork_choice toy association transactions.reading block node ≡ extends
unfolding fork_choice
extends_run = refl

accepted_run : apply_remote_block toy association transactions block node ≡ (accepted, after)
unfolding bytes_eq safe_fee_calc new_vault deposit restore_state write_le write_u32 write_u64
    write_bytes write_string write_each write_all serialize_tx serialize_deposit serialize
    contains_key all_zero signing_hash verify_signature count_entry count_entries count_validator
    verified_keys verify_quorum deposit_leaf deposit_leaves withdrawal_leaves output_leaves
    block_leaves next_level climb tree_root compute_merkle_root hashed_output distinct_keys
    hash_to_point ring_hash_challenge compute_canonical_tx_hash is_large_order left_point
    right_point next_challenge same_challenge valid_points walk_ring is_well_formed verify finds
    is_spent is_key_image_spent is_deposit_tx_processed put_images put_utxos put_deposits
    write_block commit_block fork_choice check_header check_authority check_deposit_keys
    check_deposit_amounts check_deposit check_deposits amount_of total_spent ring_denomination
    hash_valid spent_here spent_already check_tx check_txs check_change_outputs check_withdrawals
    copy_vault check_block take_effects incorporate follow apply_remote_block
accepted_run = refl

apply_remote_block-spends_example :
    let fork = fork_choice toy association transactions.reading block node in
    ((fork ≡ Fork.same) × (after ≡ node))
    ⊎ SpentImages toy association transactions block
        (checked_on toy association transactions node fork)
        after
        odd_key
apply_remote_block-spends_example =
    apply_remote_block-spends toy association transactions block node after odd_key
      association-IsMap block-IsSendable refl accepted_run

node-IsSolvent : IsSolvent node.vault
node-IsSolvent = omega arith

apply_remote_block-conserves_example :
    Moved node.vault after.vault
      (gross_of block.deposits)
      (minted_of block.deposits)
      (burned_of block.withdrawals)
      (paid_of block.withdrawals)
      (deposit_fees_of block.deposits + withdrawal_fees_of block.withdrawals)
    × (sum_amounts block.deposit_outputs ≡ minted_of block.deposits)
apply_remote_block-conserves_example =
    apply_remote_block-conserves toy association transactions block node after node-IsSolvent
      extends_run accepted_run

apply_remote_block-IsBalanced_example :
    let fork = fork_choice toy association transactions.reading block node in
    ((fork ≡ Fork.same) × (after ≡ node))
    ⊎ All (IsBalanced toy (checked_on toy association transactions node fork).utxo_pool) block.txs
apply_remote_block-IsBalanced_example =
    apply_remote_block-IsBalanced toy association transactions block node after accepted_run

-- A block of a height that is not the next.
abbrev late : Block
late = record block { header = record header { height = 3 } }

late_run : fork_choice toy association transactions.reading late node ≡ extends
unfolding fork_choice
late_run = refl

apply_remote_block-refused_example :
    let (outcome, node') = apply_remote_block toy association transactions late node in
    (outcome ≡ accepted)
    ⊎ ((r : Refusal) × (outcome ≡ rejected r)
        × (node'.db ≡ node.db)
        × (node'.utxo_pool ≡ load_all_utxos toy association transactions.reading node.db)
        × (node'.tx_history
            ≡ history toy association transactions.reading node.db node.db.top_height))
apply_remote_block-refused_example =
    apply_remote_block-refused toy association transactions late node late_run

apply_remote_block-one_keeps_example :
    (Reorganizing toy association transactions rival block (topped block)
      × Refusing toy association transactions block (topped rival))
    ⊎ (Refusing toy association transactions rival (topped block)
        × Reorganizing toy association transactions block rival (topped rival))
apply_remote_block-one_keeps_example =
    apply_remote_block-one_keeps toy association transactions block rival (topped block)
      (topped rival) rival-Competes block-Competes refl block_bytes rival_bytes

keys_run : check_deposit_keys toy receipt (output odd_key 995) ≡ accept tt
unfolding check_deposit_keys bytes_eq all_zero
keys_run = refl

create_one_time_output-check_deposit_keys_example :
    create_one_time_output toy (recipient receipt) 995 (some (toy.generichash 32 (b'0' ∷ []))) []
    ≡ ok (output odd_key 995)
create_one_time_output-check_deposit_keys_example =
    create_one_time_output-check_deposit_keys toy receipt (output odd_key 995) [] keys_run

abbrev submitted : Node toy association
submitted =
    (submit_pre_signed_transaction toy association transactions.reading transactions.committing 7
      transaction node).1

submitted_run :
    submit_pre_signed_transaction toy association transactions.reading transactions.committing 7
      transaction node
    ≡ (ok transaction, submitted)
unfolding bytes_eq safe_fee_calc new_vault deposit restore_state write_le write_u32 write_u64
    write_bytes write_string write_each write_all serialize_tx serialize_deposit serialize
    contains_key all_zero signing_hash verify_signature count_entry count_entries count_validator
    verified_keys verify_quorum deposit_leaf deposit_leaves withdrawal_leaves output_leaves
    block_leaves next_level climb tree_root compute_merkle_root hashed_output distinct_keys
    hash_to_point ring_hash_challenge compute_canonical_tx_hash is_large_order left_point
    right_point next_challenge same_challenge valid_points walk_ring is_well_formed verify finds
    is_spent is_key_image_spent is_deposit_tx_processed put_images put_utxos put_deposits
    write_block commit_block fork_choice check_header check_authority check_deposit_keys
    check_deposit_amounts check_deposit check_deposits amount_of total_spent ring_denomination
    hash_valid spent_here spent_already check_tx check_txs check_change_outputs check_withdrawals
    copy_vault check_block take_effects incorporate submitted_denomination submitted_total
    check_submitted take_tx next_block sign add_quorum_signature find_pos insert_at sign_block
    mine_block register_key_image submit_pre_signed_transaction
submitted_run = refl

abbrev mined : Block
mined = one_tx (mined_header toy association 7 transaction node) transaction

mined_run :
    mine_block toy association 7 transaction (take_tx toy association transaction node) ≡ ok mined
unfolding mine_block compute_merkle_root block_leaves deposit_leaves next_block withdrawal_leaves
    sign_block take_tx tree_root climb sign output_leaves signing_hash
mined_run = refl

authorized_run :
    check_authority toy node.authorized_validators node.validator_quorum_threshold mined []
    ≡ accept tt
unfolding check_authority verify_signature all_zero sign add_quorum_signature contains_key
    next_block bytes_eq signing_hash write_u64 write_le write_bytes write_u32
authorized_run = refl

submit_pre_signed_transaction-apply_remote_block_example :
    (transaction ≡ transaction)
    × (mined.txs ≡ transaction ∷ [])
    × (apply_remote_block toy association transactions mined node ≡ (accepted, submitted))
submit_pre_signed_transaction-apply_remote_block_example =
    submit_pre_signed_transaction-apply_remote_block toy association transactions 7 transaction
      transaction node submitted mined node-IsSolvent mined_run authorized_run submitted_run

abbrev treasury : List ℕ
treasury = b'0' ∷ b'x' ∷ replicate 40 b'1'

abbrev claim_receipt : ClaimReceipt
claim_receipt = record {
  amount_claimed = 3;
  remaining_fee_pool = 2;
  destination_address = treasury;
  tx_hash = b'0' ∷ b'x' ∷ [];
}

abbrev claimed : Node toy association
claimed = (claim_treasury_fees toy association sound 3 treasury [] node).1

claimed_run :
    claim_treasury_fees toy association sound 3 treasury [] node ≡ (ok claim_receipt, claimed)
unfolding claim_treasury_fees claim_fees is_valid_evm_address evm_digits to_hex
claimed_run = refl

saved_run : (save_vault_state toy association sound node.db claimed.vault).0 ≡ true
unfolding save_vault_state claim_treasury_fees claim_fees
saved_run = refl

claim_treasury_fees-recover_state_from_db_example :
    IsSolvent claimed.vault
    × (claimed.vault.total_collateral + claim_receipt.amount_claimed ≡ node.vault.total_collateral)
    × ((recover_state_from_db toy association sound claimed).vault ≡ claimed.vault)
claim_treasury_fees-recover_state_from_db_example =
    claim_treasury_fees-recover_state_from_db toy association association-IsMap sound sound 3
      treasury [] node claimed claim_receipt node-IsSolvent refl claimed_run saved_run
