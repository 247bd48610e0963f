-- ===== src/Node/Deposits.antt =====
-- src/node.cpp: the loop of `apply_remote_block` over the deposits.
use cryptopeg.Prelude.{
  ℕ, ◌+◌, ◌-◌, ◌%◌, ◌^◌, ◌||◌, not, ◌==◌, none, some, List, [], ◌∷◌, length, if◌then◌else◌,
  bytes_eq,
}
use cryptopeg.Errors.{Result, ok, err}
use cryptopeg.Amount.{safe_fee_calc}
use cryptopeg.Vault.{DepositReceipt, Vault}
use cryptopeg.Vault
use cryptopeg.Block.{OneTimeOutput}
use cryptopeg.Quorum.{contains_key, all_zero}
use cryptopeg.Sodium.{Sodium}
use cryptopeg.Lmdb.{Lmdb, Txn}
use cryptopeg.Database.{is_deposit_tx_processed}
use cryptopeg.Node.{
  Refusal, Verdict, refuse, accept, ◌>>=◌, ◌>>◌, refuse_if, or_refuse, uncaught, Node,
}

-- What the vault does with a call, whose exception refuses the block. A receipt is dropped.
abbrev pub vault_after : {A : Type 0} → Refusal → Result A × Vault → Verdict Vault
vault_after r (err e, v) = refuse r
vault_after r (ok a, v) = accept v

module _ (sodium : Sodium) where
  abbrev pub scalarmult_base_or : Refusal → List ℕ → Verdict (List ℕ)
  scalarmult_base_or r x =
      or_refuse (if sodium.scalarmult_base_ok x then some (sodium.scalarmult_base x) else none) r

  -- Steps 1.4 to 1.6: the keys of the output follow from the deposit.
  unfoldable pub check_deposit_keys : DepositReceipt → OneTimeOutput → Verdict (Unit {0})
  check_deposit_keys dep out = do
    let seed = sodium.generichash 32 dep.tx_hash
    let expected_r = sodium.scalar_reduce (sodium.generichash 64 seed)
    expected_R ← scalarmult_base_or Refusal.no_ephemeral_key expected_r
    refuse_if (not (bytes_eq out.ephemeral_public_key expected_R)) Refusal.wrong_ephemeral_key
    refuse_if (all_zero dep.recipient_view_pub) Refusal.no_recipient
    refuse_if
        (not (sodium.is_valid_point dep.recipient_view_pub)
          || not (sodium.is_valid_point dep.recipient_spend_pub))
        Refusal.bad_recipient
    rB ← or_refuse (sodium.scalarmult expected_r dep.recipient_view_pub) Refusal.no_shared_point
    let s_scalar = sodium.scalar_reduce (sodium.generichash 64 rB)
    hG ← scalarmult_base_or Refusal.no_hash_point s_scalar
    expected_P ← or_refuse (sodium.point_add hG dep.recipient_spend_pub) Refusal.no_destination
    refuse_if (not (bytes_eq out.destination_one_time expected_P)) Refusal.wrong_destination
    refuse_if (not (sodium.is_valid_point out.destination_one_time)) Refusal.bad_destination

-- Step 1.3: the amounts of the receipt and of the output.
unfoldable pub check_deposit_amounts : ℕ → DepositReceipt → OneTimeOutput → Verdict (Unit {0})
check_deposit_amounts bps dep out = do
  refuse_if (dep.gross_usdt_deposited == 0) Refusal.deposit_of_zero
  expected_fee ← uncaught (safe_fee_calc dep.gross_usdt_deposited bps)
  let expected_net = (dep.gross_usdt_deposited + 2 ^ 64 - expected_fee) % 2 ^ 64
  refuse_if
      (not (dep.fee_to_pool == expected_fee)
        || not (dep.net_shielded_tokens_minted == expected_net))
      Refusal.deposit_fee
  refuse_if (not (out.amount == expected_net)) Refusal.deposit_amount

module _ (sodium : Sodium) (lmdb : Lmdb) (reading : Txn) (node : Node sodium lmdb) where
  -- The hashes of the deposits before are `seen`.
  unfoldable pub check_deposit :
      DepositReceipt → OneTimeOutput → List (List ℕ) → Vault → Verdict Vault
  check_deposit dep out seen temp_vault = do
    refuse_if (length dep.tx_hash == 0) Refusal.no_deposit_hash
    refuse_if (is_deposit_tx_processed sodium lmdb reading node.db dep.tx_hash)
        Refusal.deposit_replayed
    refuse_if (contains_key seen dep.tx_hash) Refusal.deposit_twice
    check_deposit_amounts node.vault.deposit_fee_bps dep out
    check_deposit_keys sodium dep out
    vault_after Refusal.deposit_refused
        (Vault.deposit dep.gross_usdt_deposited dep.tx_hash [] temp_vault)

  -- There are as many outputs as deposits.
  unfoldable pub check_deposits :
      List DepositReceipt → List OneTimeOutput → List (List ℕ) → Vault → Verdict Vault
  check_deposits [] [] seen temp_vault = accept temp_vault
  check_deposits [] (out ∷ outs) seen temp_vault = refuse Refusal.deposit_count
  check_deposits (dep ∷ deps) [] seen temp_vault = refuse Refusal.deposit_count
  check_deposits (dep ∷ deps) (out ∷ outs) seen temp_vault = do
    temp_vault' ← check_deposit dep out seen temp_vault
    check_deposits deps outs (dep.tx_hash ∷ seen) temp_vault'
