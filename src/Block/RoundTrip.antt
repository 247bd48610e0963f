-- ===== src/Block/RoundTrip.antt =====
-- src/block.cpp: the `deserialize_…` functions read the format of Block/Format back.
use mathlib.Core.List.{append_assoc}
use cryptopeg.Prelude.{
  ℕ, ◌≡◌, refl, true, Bool, arith, List, ◌++◌, length, length-append, All, ltb, leb, le→ltb, lt→ltb,
  le→leb, ==_iff,
}
use cryptopeg.Errors.{ok}
use cryptopeg.Vault.{DepositReceipt, WithdrawalReceipt}
use cryptopeg.Serial.{read_many}
use cryptopeg.Serial.Format.{
  string_bytes, list_bytes, read_u32-u32_bytes, read_u64-u64_bytes, read_bytes-append,
  read_string-string_bytes, read_many-list_bytes,
}
use cryptopeg.Block.{OneTimeOutput, RingSignature, ShieldedTransaction, IsKey, max_tx_outputs}
use cryptopeg.Block.Decode.{
  read_key, deserialize_output, read_ring_key, deserialize_ring_sig, deserialize_tx, read_recipient,
  deserialize_deposit, read_key_if_left, read_destination, read_burn_proof, deserialize_withdrawal,
}
use cryptopeg.Block.Format.{
  output_bytes, key_bytes, counted_bytes, ring_sig_bytes, tx_bytes, deposit_bytes, burn_bytes,
  withdrawal_bytes, IsDeposit, IsWithdrawal, IsPoint, IsOutput, IsRingSignature, IsTransaction,
}

module _ (is_valid_point : List ℕ → Bool) where
  deserialize_output_lem :
      (out : OneTimeOutput) (t : List ℕ)
      → IsOutput is_valid_point out
      → deserialize_output is_valid_point (output_bytes out ++ t) ≡ ok (out, t)
  unfolding deserialize_output output_bytes
  deserialize_output_lem out t h = simp append_assoc (
      rw
        (
          read_bytes-append 32 out.ephemeral_public_key _ h.ephemeral.size,
          read_bytes-append 32 out.destination_one_time _ h.destination.size,
          read_u64-u64_bytes out.amount t h.amount,
          h.ephemeral.valid,
          h.destination.valid,
        )
        refl)

  read_ring_key_lem :
      (k t : List ℕ) → IsPoint is_valid_point k → read_ring_key is_valid_point (k ++ t) ≡ ok (k, t)
  unfolding read_ring_key
  read_ring_key_lem k t h = rw (read_bytes-append 32 k t h.size, h.valid) refl

  deserialize_ring_sig_lem :
      (sig : RingSignature) (t : List ℕ)
      → IsRingSignature is_valid_point sig
      → deserialize_ring_sig is_valid_point (ring_sig_bytes sig ++ t) ≡ ok (sig, t)
  unfolding deserialize_ring_sig ring_sig_bytes counted_bytes
  deserialize_ring_sig_lem sig t h = simp append_assoc (
      rw
        (
          read_bytes-append 32 sig.key_image _ h.image.size,
          read_bytes-append 32 sig.c0 _ h.c0,
          h.image.valid,
          read_u32-u32_bytes (length sig.responses) _ (omega arith),
          le→ltb (length sig.responses) 1 h.some_keys,
          le→ltb 64 (length sig.responses) h.few_keys,
          read_many-list_bytes IsKey key_bytes read_key (read_bytes-append 32) sig.responses _
              h.responses,
          read_u32-u32_bytes (length sig.ring_pubkeys) _ (omega arith),
          (==_iff (length sig.ring_pubkeys) (length sig.responses)).1 h.paired,
          read_many-list_bytes (IsPoint is_valid_point) key_bytes (read_ring_key is_valid_point)
              read_ring_key_lem sig.ring_pubkeys t h.ring,
        )
        refl)

  pub read_outputs_lem :
      (outs : List OneTimeOutput) (t : List ℕ)
      → All (IsOutput is_valid_point) outs
      → read_many
          (length outs)
          (deserialize_output is_valid_point)
          (list_bytes output_bytes outs ++ t)
        ≡ ok (outs, t)
  read_outputs_lem outs t h =
      read_many-list_bytes (IsOutput is_valid_point) output_bytes
        (deserialize_output is_valid_point) deserialize_output_lem outs t h

  pub deserialize_tx_lem :
      (tx : ShieldedTransaction) (t : List ℕ)
      → IsTransaction is_valid_point tx
      → deserialize_tx is_valid_point (tx_bytes tx ++ t) ≡ ok (tx, t)
  unfolding deserialize_tx tx_bytes counted_bytes
  deserialize_tx_lem tx t h = simp append_assoc (
      rw
        (
          read_bytes-append 32 tx.tx_hash _ h.hash,
          deserialize_ring_sig_lem tx.ring_sig _ h.ring_sig,
          read_u32-u32_bytes (length tx.outputs) _ (omega arith),
          le→ltb max_tx_outputs (length tx.outputs) h.few,
          read_outputs_lem tx.outputs _ h.outputs,
          read_u64-u64_bytes tx.public_fee _ h.fee,
          read_string-string_bytes tx.timestamp t h.time,
        )
        refl)

-- At least `n` bytes are left where `xs` and what follows it are read next.
left_key : (k t : List ℕ) → IsKey k → leb 32 (length (k ++ t)) ≡ true
left_key k t h = le→leb 32 _ (omega (arith, length-append k t))

left_two_keys : (j k t : List ℕ) → IsKey j → IsKey k → leb 64 (length (j ++ (k ++ t))) ≡ true
left_two_keys j k t hj hk = le→leb 64 _ (omega (arith, length-append j (k ++ t), length-append k t))

left_three_keys :
    (i j k t : List ℕ) → IsKey i → IsKey j → IsKey k → leb 96 (length (i ++ (j ++ (k ++ t)))) ≡ true
left_three_keys i j k t hi hj hk =
    le→leb 96 _
      (omega (arith, length-append i (j ++ (k ++ t)), length-append j (k ++ t), length-append k t))

left_string : (str k t : List ℕ) → IsKey k → ltb 4 (length (string_bytes str ++ (k ++ t))) ≡ true
left_string str k t h =
    lt→ltb 4 _ (omega (arith, length-append (string_bytes str) (k ++ t), length-append k t))

pub deserialize_deposit_lem :
    (dep : DepositReceipt) (t : List ℕ)
    → IsDeposit dep
    → deserialize_deposit (deposit_bytes dep ++ t) ≡ ok (dep, t)
unfolding deserialize_deposit deposit_bytes read_recipient
deserialize_deposit_lem dep t h = simp append_assoc (
    rw
      (
        read_u64-u64_bytes dep.gross_usdt_deposited _ h.gross,
        read_u64-u64_bytes dep.fee_to_pool _ h.fee,
        read_u64-u64_bytes dep.net_shielded_tokens_minted _ h.net,
        read_string-string_bytes dep.tx_hash _ h.hash,
        left_two_keys dep.recipient_view_pub dep.recipient_spend_pub t h.view h.spend,
        read_bytes-append 32 dep.recipient_view_pub _ h.view,
        read_bytes-append 32 dep.recipient_spend_pub t h.spend,
      )
      refl)

pub deserialize_withdrawal_lem :
    (wdr : WithdrawalReceipt) (t : List ℕ)
    → IsWithdrawal wdr
    → deserialize_withdrawal (withdrawal_bytes wdr ++ t) ≡ ok (wdr, t)
unfolding deserialize_withdrawal withdrawal_bytes burn_bytes read_destination read_key_if_left
    read_burn_proof
deserialize_withdrawal_lem wdr t h = simp append_assoc (
    rw
      (
        read_u64-u64_bytes wdr.gross_tokens_burned _ h.gross,
        read_u64-u64_bytes wdr.fee_to_pool _ h.fee,
        read_u64-u64_bytes wdr.net_usdt_to_tumble _ h.net,
        read_string-string_bytes wdr.order_id _ h.order,
        left_string wdr.destination_address wdr.key_image _ h.image,
        read_string-string_bytes wdr.destination_address _ h.destination,
        left_key wdr.key_image _ h.image,
        read_bytes-append 32 wdr.key_image _ h.image,
        left_three_keys wdr.burned_utxo_pubkey wdr.burn_signature_c0 wdr.burn_signature_s _ h.utxo
            h.c0 h.s,
        read_bytes-append 32 wdr.burned_utxo_pubkey _ h.utxo,
        read_bytes-append 32 wdr.burn_signature_c0 _ h.c0,
        read_bytes-append 32 wdr.burn_signature_s _ h.s,
        left_key wdr.change_output_pubkey t h.change,
        read_bytes-append 32 wdr.change_output_pubkey t h.change,
      )
      refl)
