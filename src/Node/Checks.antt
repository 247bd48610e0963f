-- ===== src/Node/Checks.antt =====
-- src/node.cpp: what a block that passes the checks of `apply_remote_block` went through.
use mathlib.Core.List.{append_assoc}
use cryptopeg.Prelude.{
  ℕ, ◌≡◌, refl, sym, ap, ◌∙◌, true, false, not, ◌==◌, ==_iff, List, [], ◌++◌, length, replicate,
}
use cryptopeg.Vault.{Vault, audit_solvency}
use cryptopeg.Block.{OneTimeOutput, Block}
use cryptopeg.Sodium.{Sodium}
use cryptopeg.Lmdb.{Lmdb, Txn}
use cryptopeg.Database.Contents.{tx_outputs, raw_images, raw_burns, block_images, block_outputs}
use cryptopeg.Node.{Refusal, accept, refuse_if, Node}
use cryptopeg.Node.Header.{check_header, check_authority}
use cryptopeg.Node.Deposits.{check_deposits}
use cryptopeg.Node.Transfers.{check_txs}
use cryptopeg.Node.Burns.{Burning, check_change_outputs, check_withdrawals}
use cryptopeg.Node.Apply.{Effects, copy_vault, check_block}
use cryptopeg.Node.Accepted.{>>=-accept, refuse_if-not-accept, accept_injective}
use cryptopeg.Node.Fresh.{Fresh, Fresh-append, check_txs-Fresh, check_withdrawals-Fresh}

module _ (sodium : Sodium) (lmdb : Lmdb) (reading : Txn) (node : Node sodium lmdb) where
  -- The loop over the withdrawals starts with no output claimed.
  unfoldable pub start_burning : List OneTimeOutput → List (List ℕ) → Vault → Burning
  start_burning outs images v = record {
    output_claimed = replicate (length outs) false;
    expected_change_count = 0;
    spent_images = images;
    temp_vault = v;
  }

  pub record Checked (block : Block) (effects : Effects) : Type 0 where
    pub headed : check_header sodium node.db.top_height node.db.top_hash block ≡ accept tt
    pub authorized :
        check_authority sodium node.authorized_validators node.validator_quorum_threshold block
          block.deposits
        ≡ accept tt
    pub temp_vault : Vault
    pub copied : copy_vault node.vault ≡ accept temp_vault
    pub with_deposits : Vault
    pub deposited :
        check_deposits sodium lmdb reading node block.deposits block.deposit_outputs [] temp_vault
        ≡ accept with_deposits
    pub moved :
        check_txs sodium lmdb reading node block.header.height block.txs [] []
        ≡ accept (raw_images block.txs, tx_outputs block.txs)
    pub burning : Burning
    pub burnt :
        check_withdrawals sodium lmdb reading node block.withdrawals block.withdrawal_outputs
          (start_burning block.withdrawal_outputs (raw_images block.txs) with_deposits)
        ≡ accept burning
    pub vault : effects.vault ≡ burning.temp_vault
    pub solvent : audit_solvency burning.temp_vault ≡ true
    pub counted : length block.withdrawal_outputs ≡ burning.expected_change_count
    pub spent_images : effects.spent_images ≡ block_images block
    pub new_utxos : effects.new_utxos ≡ block_outputs block
    pub fresh : Fresh sodium lmdb reading node [] (block_images block)

  gather :
      (block : Block) (e : Effects) (temp_vault with_deposits : Vault) (images : List (List ℕ))
      (utxos : List OneTimeOutput) (b : Burning)
      → check_header sodium node.db.top_height node.db.top_hash block ≡ accept tt
      → check_authority sodium node.authorized_validators node.validator_quorum_threshold block
          block.deposits
        ≡ accept tt
      → copy_vault node.vault ≡ accept temp_vault
      → check_deposits sodium lmdb reading node block.deposits block.deposit_outputs [] temp_vault
        ≡ accept with_deposits
      → check_txs sodium lmdb reading node block.header.height block.txs [] []
        ≡ accept (images, utxos)
      → check_withdrawals sodium lmdb reading node block.withdrawals block.withdrawal_outputs
          (start_burning block.withdrawal_outputs images with_deposits)
        ≡ accept b
      → audit_solvency b.temp_vault ≡ true
      → length block.withdrawal_outputs ≡ b.expected_change_count
      → ◌≡◌ {A = Effects}
          (record {
            vault = b.temp_vault;
            spent_images = b.spent_images;
            new_utxos = (utxos ++ block.deposit_outputs) ++ block.withdrawal_outputs;
          })
          e
      → Checked block e
  unfolding block_images block_outputs start_burning
  gather block e temp_vault with_deposits images utxos b headed authorized copied deposited moved
        burnt solvent counted same =
      let (all, whole, fresh) =
        check_txs-Fresh sodium lmdb reading node block.header.height block.txs [] images [] utxos
          moved in
      let (grown, burns) =
        check_withdrawals-Fresh sodium lmdb reading node block.withdrawals block.withdrawal_outputs
          (start_burning block.withdrawal_outputs images with_deposits) b burnt in
      record {
        headed = headed;
        authorized = authorized;
        temp_vault = temp_vault;
        copied = copied;
        with_deposits = with_deposits;
        deposited = deposited;
        moved = moved ∙ rw (all, whole) refl;
        burning = b;
        burnt = rw (← all) burnt;
        vault = sym (ap (λ (f : Effects). f.vault) same);
        solvent = solvent;
        counted = counted;
        spent_images =
            sym (ap (λ (f : Effects). f.spent_images) same)
            ∙ grown
            ∙ ap (λ ks. ks ++ raw_burns block.withdrawals) all;
        new_utxos =
            sym (ap (λ (f : Effects). f.new_utxos) same)
            ∙ rw whole (
                append_assoc (tx_outputs block.txs) block.deposit_outputs block.withdrawal_outputs);
        fresh =
            Fresh-append sodium lmdb reading node [] (raw_images block.txs)
              (raw_burns block.withdrawals) fresh (rw all at burns);
      }

  pub check_block-Checked :
      (block : Block) (effects : Effects)
      → check_block sodium lmdb reading node block ≡ accept effects
      → Checked block effects
  unfolding check_block start_burning
  check_block-Checked block e h =
      let (_, headed, h₁) =
        >>=-accept (check_header sodium node.db.top_height node.db.top_hash block) _ e h in
      let (_, authorized, h₂) =
        >>=-accept
          (check_authority sodium node.authorized_validators node.validator_quorum_threshold block
            block.deposits)
          _ e h₁ in
      let (temp_vault, copied, h₃) = >>=-accept (copy_vault node.vault) _ e h₂ in
      let (_, _, h₄) =
        >>=-accept
          (refuse_if (not (length block.deposits == length block.deposit_outputs))
            Refusal.deposit_count)
          _ e h₃ in
      let (with_deposits, deposited, h₅) =
        >>=-accept
          (check_deposits sodium lmdb reading node block.deposits block.deposit_outputs []
            temp_vault)
          _ e h₄ in
      let ((images, utxos), moved, h₆) =
        >>=-accept (check_txs sodium lmdb reading node block.header.height block.txs [] []) _ e
          h₅ in
      let (_, _, h₇) = >>=-accept (check_change_outputs sodium block.withdrawal_outputs) _ e h₆ in
      let (b, burnt, h₈) =
        >>=-accept
          (check_withdrawals sodium lmdb reading node block.withdrawals block.withdrawal_outputs
            (start_burning block.withdrawal_outputs images with_deposits))
          _ e h₇ in
      let (_, counted, h₉) =
        >>=-accept
          (refuse_if (not (length block.withdrawal_outputs == b.expected_change_count))
            Refusal.orphan_change)
          _ e h₈ in
      let (_, solvent, last) =
        >>=-accept (refuse_if (not (audit_solvency b.temp_vault)) Refusal.insolvent) _ e h₉ in
      gather block e temp_vault with_deposits images utxos b headed authorized copied deposited
        moved burnt (refuse_if-not-accept _ Refusal.insolvent _ solvent)
        ((==_iff _ _).0 (refuse_if-not-accept _ Refusal.orphan_change _ counted))
        (accept_injective _ e last)
