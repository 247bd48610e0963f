-- ===== src/Block/Encode.antt =====
-- src/block.cpp: `serialize_…` and `Block::serialize`.
use cryptopeg.Prelude.{ℕ, ◌%◌, ◌^◌, List, [], ◌∷◌, length}
use cryptopeg.Errors.{Result, ok, ◌>>=◌}
use cryptopeg.Vault.{DepositReceipt, WithdrawalReceipt}
use cryptopeg.Serial.{
  ByteWriter, write_u32, write_u64, write_bytes, write_string, write_each, write_all,
}
use cryptopeg.Block.{
  OneTimeOutput, RingSignature, ShieldedTransaction, BlockHeader, Block, zero_signature,
}

-- `static_cast<uint32_t>(xs.size())`
abbrev pub count {ℓ} : {A : Type ℓ} → List A → ℕ
count xs = length xs % 2 ^ 32

unfoldable pub serialize_output : ByteWriter → OneTimeOutput → ByteWriter
serialize_output w out =
    let w₁ = write_bytes w out.ephemeral_public_key in
    let w₂ = write_bytes w₁ out.destination_one_time in write_u64 w₂ out.amount

unfoldable pub serialize_ring_sig : ByteWriter → RingSignature → ByteWriter
serialize_ring_sig w sig =
    let w₁ = write_bytes w sig.key_image in
    let w₂ = write_bytes w₁ sig.c0 in
    let w₃ = write_u32 w₂ (count sig.responses) in
    let w₄ = write_all write_bytes w₃ sig.responses in
    let w₅ = write_u32 w₄ (count sig.ring_pubkeys) in write_all write_bytes w₅ sig.ring_pubkeys

unfoldable pub serialize_tx : ByteWriter → ShieldedTransaction → Result ByteWriter
serialize_tx w tx =
    let w₁ = write_bytes w tx.tx_hash in
    let w₂ = serialize_ring_sig w₁ tx.ring_sig in
    let w₃ = write_u32 w₂ (count tx.outputs) in
    let w₄ = write_all serialize_output w₃ tx.outputs in
    let w₅ = write_u64 w₄ tx.public_fee in write_string w₅ tx.timestamp

unfoldable pub serialize_deposit : ByteWriter → DepositReceipt → Result ByteWriter
serialize_deposit w dep = do
  let w₁ = write_u64 w dep.gross_usdt_deposited
  let w₂ = write_u64 w₁ dep.fee_to_pool
  let w₃ = write_u64 w₂ dep.net_shielded_tokens_minted
  w₄ ← write_string w₃ dep.tx_hash
  let w₅ = write_bytes w₄ dep.recipient_view_pub
  ok (write_bytes w₅ dep.recipient_spend_pub)

unfoldable pub serialize_withdrawal : ByteWriter → WithdrawalReceipt → Result ByteWriter
serialize_withdrawal w wdr = do
  let w₁ = write_u64 w wdr.gross_tokens_burned
  let w₂ = write_u64 w₁ wdr.fee_to_pool
  let w₃ = write_u64 w₂ wdr.net_usdt_to_tumble
  w₄ ← write_string w₃ wdr.order_id
  w₅ ← write_string w₄ wdr.destination_address
  let w₆ = write_bytes w₅ wdr.key_image
  let w₇ = write_bytes w₆ wdr.burned_utxo_pubkey
  let w₈ = write_bytes w₇ wdr.burn_signature_c0
  let w₉ = write_bytes w₈ wdr.burn_signature_s
  ok (write_bytes w₉ wdr.change_output_pubkey)

-- The loop over the quorum; a key with no signature is given an empty one.
unfoldable pub write_quorum : ByteWriter → List (List ℕ) → List (List ℕ) → ByteWriter
write_quorum w [] sigs = w
write_quorum w (pk ∷ pks) [] = write_quorum (write_bytes (write_bytes w pk) zero_signature) pks []
write_quorum w (pk ∷ pks) (sig ∷ sigs) = write_quorum (write_bytes (write_bytes w pk) sig) pks sigs

unfoldable pub serialize_header : ByteWriter → BlockHeader → ByteWriter
serialize_header w h =
    let w₁ = write_u32 w h.version in
    let w₂ = write_u64 w₁ h.height in
    let w₃ = write_bytes w₂ h.prev_block_hash in
    let w₄ = write_bytes w₃ h.merkle_root in
    let w₅ = write_u64 w₄ h.timestamp in
    let w₆ = write_u64 w₅ h.nonce in
    let w₇ = write_bytes w₆ h.validator_pubkey in
    let w₈ = write_bytes w₇ h.validator_signature in
    let w₉ = write_u32 w₈ (count h.quorum_pubkeys) in
    write_quorum w₉ h.quorum_pubkeys h.quorum_signatures

unfoldable pub serialize : Block → Result (List ℕ)
serialize b = do
  let w₁ = serialize_header [] b.header
  let w₂ = write_u32 w₁ (count b.txs)
  w₃ ← write_each serialize_tx w₂ b.txs
  let w₄ = write_u32 w₃ (count b.deposits)
  w₅ ← write_each serialize_deposit w₄ b.deposits
  let w₆ = write_u32 w₅ (count b.withdrawals)
  w₇ ← write_each serialize_withdrawal w₆ b.withdrawals
  let w₈ = write_u32 w₇ (count b.deposit_outputs)
  let w₉ = write_all serialize_output w₈ b.deposit_outputs
  let w₁₀ = write_u32 w₉ (count b.withdrawal_outputs)
  ok (write_all serialize_output w₁₀ b.withdrawal_outputs)
