-- ===== src/Block/Written.antt =====
-- src/block.cpp: the `serialize_…` functions append the format of Block/Format.
use mathlib.Core.List.{append-nil, append_assoc}
use native.Mathlib.Nat.{mod-eq_of_lt}
use cryptopeg.Prelude.{ℕ, ◌≡◌, refl, sym, Bool, arith, List, [], ◌∷◌, ◌++◌, All}
use cryptopeg.Errors.{Result, ok}
use cryptopeg.Vault.{DepositReceipt, WithdrawalReceipt}
use cryptopeg.Serial.{ByteWriter, write_bytes, write_all, write_each, write_u32}
use cryptopeg.Serial.Format.{
  write_u32-append, write_u64-append, write_string-append, write_all-append, write_each-append,
}
use cryptopeg.Block.{
  OneTimeOutput, RingSignature, ShieldedTransaction, BlockHeader, Block, zero_signature,
}
use cryptopeg.Block.Encode.{
  count, serialize_output, serialize_ring_sig, serialize_tx, serialize_deposit,
  serialize_withdrawal, write_quorum, serialize_header, serialize,
}
use cryptopeg.Block.Format.{
  Fits, output_bytes, key_bytes, counted_bytes, ring_sig_bytes, tx_bytes, deposit_bytes, burn_bytes,
  withdrawal_bytes, quorum_bytes, header_front, header_bytes, block_bytes, IsDeposit, IsWithdrawal,
  IsTransaction, IsSendable,
}

write_bytes_lem : (w xs : List ℕ) → write_bytes w xs ≡ w ++ xs
unfolding write_bytes
write_bytes_lem w xs = refl

serialize_output_lem :
    (w : ByteWriter) (out : OneTimeOutput) → serialize_output w out ≡ w ++ output_bytes out
unfolding serialize_output output_bytes
serialize_output_lem w out = simp (write_u64-append, write_bytes_lem, append_assoc)

-- A count that fits 32 bits, and the elements.
write_counted {ℓ} :
    {A : Type ℓ} (bytes : A → List ℕ) (write : ByteWriter → A → ByteWriter)
    → ((w : ByteWriter) (x : A) → write w x ≡ w ++ bytes x)
    → (w : ByteWriter) (xs : List A) → Fits xs
    → write_all write (write_u32 w (count xs)) xs ≡ w ++ counted_bytes bytes xs
unfolding counted_bytes
write_counted bytes write each w xs h =
    rw (mod-eq_of_lt h, write_u32-append, write_all-append bytes write each, append_assoc) refl

write_keys :
    (w : ByteWriter) (ks : List (List ℕ))
    → Fits ks
    → write_all write_bytes (write_u32 w (count ks)) ks ≡ w ++ counted_bytes key_bytes ks
write_keys w ks h = write_counted key_bytes write_bytes write_bytes_lem w ks h

serialize_ring_sig_lem :
    (w : ByteWriter) (sig : RingSignature)
    → Fits sig.responses
    → Fits sig.ring_pubkeys
    → serialize_ring_sig w sig ≡ w ++ ring_sig_bytes sig
unfolding serialize_ring_sig ring_sig_bytes
serialize_ring_sig_lem w sig hr hp =
    rw (write_keys _ sig.responses hr, write_keys _ sig.ring_pubkeys hp)
      (simp (write_bytes_lem, append_assoc))

write_outputs :
    (w : ByteWriter) (outs : List OneTimeOutput)
    → Fits outs
    → write_all serialize_output (write_u32 w (count outs)) outs
      ≡ w ++ counted_bytes output_bytes outs
write_outputs w outs h = write_counted output_bytes serialize_output serialize_output_lem w outs h

module _ (is_valid_point : List ℕ → Bool) where
  serialize_tx_lem :
      (w : ByteWriter) (tx : ShieldedTransaction)
      → IsTransaction is_valid_point tx
      → serialize_tx w tx ≡ ok (w ++ tx_bytes tx)
  unfolding serialize_tx tx_bytes
  serialize_tx_lem w tx h =
      rw
        (
          serialize_ring_sig_lem _ tx.ring_sig (omega arith) (omega arith),
          write_outputs _ tx.outputs (omega arith),
          write_string-append _ tx.timestamp (omega arith),
        )
        (simp (write_u64-append, write_bytes_lem, append_assoc))

serialize_deposit_lem :
    (w : ByteWriter) (dep : DepositReceipt)
    → IsDeposit dep
    → serialize_deposit w dep ≡ ok (w ++ deposit_bytes dep)
unfolding serialize_deposit deposit_bytes
serialize_deposit_lem w dep h =
    rw (write_string-append _ dep.tx_hash (omega arith))
      (simp (write_u64-append, write_bytes_lem, append_assoc))

serialize_withdrawal_lem :
    (w : ByteWriter) (wdr : WithdrawalReceipt)
    → IsWithdrawal wdr
    → serialize_withdrawal w wdr ≡ ok (w ++ withdrawal_bytes wdr)
unfolding serialize_withdrawal withdrawal_bytes burn_bytes
serialize_withdrawal_lem w wdr h =
    rw
      (
        write_string-append _ wdr.order_id (omega arith),
        write_string-append _ wdr.destination_address (omega arith),
      )
      (simp (write_u64-append, write_bytes_lem, append_assoc))

write_quorum_lem :
    (w : ByteWriter) (pks sigs : List (List ℕ))
    → write_quorum w pks sigs ≡ w ++ quorum_bytes pks sigs
unfolding write_quorum quorum_bytes
write_quorum_lem w [] sigs = sym (append-nil w)
write_quorum_lem w (pk ∷ pks) [] =
    rw (write_quorum_lem (write_bytes (write_bytes w pk) zero_signature) pks [])
      (simp (write_bytes_lem, append_assoc))
write_quorum_lem w (pk ∷ pks) (sig ∷ sigs) =
    rw (write_quorum_lem (write_bytes (write_bytes w pk) sig) pks sigs)
      (simp (write_bytes_lem, append_assoc))

pub serialize_header_lem :
    (w : ByteWriter) (h : BlockHeader)
    → Fits h.quorum_pubkeys
    → serialize_header w h ≡ w ++ header_bytes h
unfolding serialize_header header_bytes header_front
serialize_header_lem w h few =
    rw (mod-eq_of_lt few, write_quorum_lem)
      (simp (write_u32-append, write_u64-append, write_bytes_lem, append_assoc))

write_counted_each {ℓ κ} :
    {A : Type ℓ} (P : A → Type κ) (bytes : A → List ℕ) (write : ByteWriter → A → Result ByteWriter)
    → ((w : ByteWriter) (x : A) → P x → write w x ≡ ok (w ++ bytes x))
    → (w : ByteWriter) (xs : List A) → Fits xs
    → All P xs
    → write_each write (write_u32 w (count xs)) xs ≡ ok (w ++ counted_bytes bytes xs)
unfolding counted_bytes
write_counted_each P bytes write each w xs few h =
    rw
      (
        mod-eq_of_lt few,
        write_u32-append,
        write_each-append P bytes write each _ xs h,
        append_assoc,
      )
      refl

-- `serialize` succeeds on a block that can be sent, and writes its format.
pub serialize_lem :
    (is_valid_point : List ℕ → Bool) (b : Block)
    → IsSendable is_valid_point b
    → serialize b ≡ ok (block_bytes b)
unfolding serialize block_bytes
serialize_lem is_valid_point b h =
    rw
      (
        serialize_header_lem [] b.header (omega arith),
        write_counted_each (IsTransaction is_valid_point) tx_bytes serialize_tx
            (serialize_tx_lem is_valid_point) _ b.txs (omega arith) h.txs,
        write_counted_each IsDeposit deposit_bytes serialize_deposit serialize_deposit_lem _
            b.deposits (omega arith) h.deposits,
        write_counted_each IsWithdrawal withdrawal_bytes serialize_withdrawal
            serialize_withdrawal_lem _ b.withdrawals (omega arith) h.withdrawals,
        write_outputs _ b.deposit_outputs (omega arith),
        write_outputs _ b.withdrawal_outputs (omega arith),
      )
      (simp append_assoc)
