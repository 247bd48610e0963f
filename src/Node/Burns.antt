-- ===== src/Node/Burns.antt =====
-- src/node.cpp: the loops of `apply_remote_block` over the withdrawals and their change.
use cryptopeg.Prelude.{
  ℕ, ◌+◌, ◌-◌, ◌%◌, ◌^◌, Bool, true, ◌&&◌, ◌||◌, not, ◌==◌, ltb, Option, none, some, List, [], ◌∷◌,
  ◌++◌, if◌then◌else◌, bytes_eq,
}
use cryptopeg.Amount.{safe_fee_calc}
use cryptopeg.Hex.{is_valid_evm_address}
use cryptopeg.Vault.{WithdrawalReceipt, Vault}
use cryptopeg.Vault
use cryptopeg.Block.{OneTimeOutput, zero_key}
use cryptopeg.Ring.{compute_burn_message_hash, verify_burn_proof}
use cryptopeg.Sodium.{Sodium}
use cryptopeg.Lmdb.{Lmdb, Txn}
use cryptopeg.Node.{Refusal, Verdict, refuse, accept, ◌>>=◌, ◌>>◌, refuse_if, uncaught, Node}
use cryptopeg.Node.Deposits.{vault_after}
use cryptopeg.Node.Transfers.{amount_of, spent_here, spent_already}

-- Step 3.1: the fee and the net amount of the receipt.
unfoldable pub check_burn_amounts : ℕ → WithdrawalReceipt → Verdict (Unit {0})
check_burn_amounts bps wdr = do
  refuse_if (wdr.gross_tokens_burned == 0) Refusal.burn_of_zero
  expected_fee ← uncaught (safe_fee_calc wdr.gross_tokens_burned bps)
  let expected_net = (wdr.gross_tokens_burned + 2 ^ 64 - expected_fee) % 2 ^ 64
  refuse_if (not (wdr.fee_to_pool == expected_fee) || not (wdr.net_usdt_to_tumble == expected_net))
      Refusal.burn_fee

-- `output_claimed` after the loop that looks for the change; `none` where it is not found.
unfoldable pub claim_output : ℕ → List ℕ → List OneTimeOutput → List Bool → Option (List Bool)
claim_output amount key [] claimed = none
claim_output amount key (out ∷ outs) [] = none
claim_output amount key (out ∷ outs) (done ∷ claimed) =
    if not done && ((out.amount == amount) && bytes_eq out.destination_one_time key)
    then some (true ∷ claimed)
    else elim (claim_output amount key outs claimed) [
      | none ↦ none
      | some claimed' ↦ some (done ∷ claimed')
    ]

abbrev pub count_change : ℕ → Option (List Bool) → Verdict (List Bool × ℕ)
count_change count none = refuse Refusal.no_change
count_change count (some claimed) = accept (claimed, count + 1)

-- Step 3.3b: the outputs that are claimed, and `expected_change_count`.
unfoldable pub check_change :
    ℕ → WithdrawalReceipt → List OneTimeOutput → List Bool → ℕ → Verdict (List Bool × ℕ)
check_change expected_change wdr outs claimed count =
    if ltb 0 expected_change
    then count_change count (claim_output expected_change wdr.change_output_pubkey outs claimed)
    else if bytes_eq wdr.change_output_pubkey zero_key
    then accept (claimed, count)
    else refuse Refusal.change_key_left

abbrev pub known_utxo : Option ℕ → Verdict ℕ
known_utxo none = refuse Refusal.unknown_utxo
known_utxo (some amount) = accept amount

-- What the loop over the withdrawals keeps.
pub record Burning : Type 0 where
  pub output_claimed : List Bool
  pub expected_change_count : ℕ
  pub spent_images : List (List ℕ)
  pub temp_vault : Vault

module _ (sodium : Sodium) where
  -- The loop over the outputs of change.
  unfoldable pub check_change_outputs : List OneTimeOutput → Verdict (Unit {0})
  check_change_outputs [] = accept tt
  check_change_outputs (co ∷ outs) = do
    refuse_if (co.amount == 0) Refusal.change_of_zero
    refuse_if
        (not (sodium.is_valid_point co.destination_one_time)
          || not (sodium.is_valid_point co.ephemeral_public_key))
        Refusal.bad_change
    check_change_outputs outs

  abbrev pub burn_message : WithdrawalReceipt → List ℕ
  burn_message wdr =
      compute_burn_message_hash sodium wdr.order_id wdr.gross_tokens_burned wdr.destination_address
        wdr.change_output_pubkey

module _ (sodium : Sodium) (lmdb : Lmdb) (reading : Txn) (node : Node sodium lmdb) where
  unfoldable pub check_withdrawal :
      WithdrawalReceipt → List OneTimeOutput → Burning → Verdict Burning
  check_withdrawal wdr outs b = do
    check_burn_amounts node.vault.withdraw_fee_bps wdr
    refuse_if (not (is_valid_evm_address wdr.destination_address)) Refusal.bad_address
    utxo_amount ← known_utxo (amount_of wdr.burned_utxo_pubkey node.utxo_pool)
    refuse_if (ltb utxo_amount wdr.gross_tokens_burned) Refusal.utxo_too_small
    (output_claimed, expected_change_count) ←
        check_change (utxo_amount - wdr.gross_tokens_burned) wdr outs b.output_claimed
          b.expected_change_count
    proven ← uncaught (
        verify_burn_proof sodium (burn_message sodium wdr) wdr.burned_utxo_pubkey (record {
          key_image = wdr.key_image;
          c0 = wdr.burn_signature_c0;
          s = wdr.burn_signature_s;
        }))
    refuse_if (not proven) Refusal.bad_burn_proof
    refuse_if (spent_already sodium lmdb reading node wdr.key_image) Refusal.burnt_before
    refuse_if (spent_here sodium b.spent_images wdr.key_image) Refusal.burnt_in_block
    temp_vault ←
        vault_after Refusal.withdrawal_refused
          (Vault.request_withdrawal wdr.gross_tokens_burned [] b.temp_vault)
    accept (record {
      output_claimed = output_claimed;
      expected_change_count = expected_change_count;
      spent_images = b.spent_images ++ (wdr.key_image ∷ []);
      temp_vault = temp_vault;
    })

  unfoldable pub check_withdrawals :
      List WithdrawalReceipt → List OneTimeOutput → Burning → Verdict Burning
  check_withdrawals [] outs b = accept b
  check_withdrawals (wdr ∷ wdrs) outs b = do
    b' ← check_withdrawal wdr outs b
    check_withdrawals wdrs outs b'
