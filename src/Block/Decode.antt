-- ===== src/Block/Decode.antt =====
-- src/block.cpp: `deserialize_…` and `Block::deserialize`.
-- `crypto_core_ed25519_is_valid_point` of libsodium is a parameter.
use cryptopeg.Prelude.{ℕ, Bool, not, ◌||◌, ◌&&◌, List, [], ◌∷◌, ltb, leb, ◌==◌, if◌then◌else◌}
use cryptopeg.Errors.{Error, Result, ok, err}
use cryptopeg.Errors
use cryptopeg.Vault.{DepositReceipt, WithdrawalReceipt}
use cryptopeg.Serial.{
  Reader, ◌>>=◌, ◌>>◌, pure, throw_if, remaining, read_u32, read_u64, read_bytes, read_string,
  read_many,
}
use cryptopeg.Block.{
  OneTimeOutput, RingSignature, ShieldedTransaction, BlockHeader, Block, zero_key,
  max_block_transactions, max_block_deposits, max_block_withdrawals, max_block_outputs,
  max_tx_outputs,
}

-- `read_array<32>()`
abbrev pub read_key : Reader (List ℕ)
read_key = read_bytes 32

module _ (is_valid_point : List ℕ → Bool) where
  unfoldable pub deserialize_output : Reader OneTimeOutput
  deserialize_output = do
    ephemeral ← read_key
    destination ← read_key
    amount ← read_u64
    throw_if (not (is_valid_point ephemeral)) Error.invalid_point
    throw_if (not (is_valid_point destination)) Error.invalid_point
    pure (record {
      ephemeral_public_key = ephemeral;
      destination_one_time = destination;
      amount = amount;
    })

  -- A key of the ring, which has to be a point.
  unfoldable pub read_ring_key : Reader (List ℕ)
  read_ring_key = do pk ← read_key; throw_if (not (is_valid_point pk)) Error.invalid_point; pure pk

  unfoldable pub deserialize_ring_sig : Reader RingSignature
  deserialize_ring_sig = do
    key_image ← read_key
    c0 ← read_key
    throw_if (not (is_valid_point key_image)) Error.invalid_point
    resp_count ← read_u32
    throw_if (ltb resp_count 1 || ltb 64 resp_count) Error.ring_size_out_of_bounds
    responses ← read_many resp_count read_key
    pk_count ← read_u32
    throw_if (not (pk_count == resp_count)) Error.ring_size_mismatch
    ring_pubkeys ← read_many pk_count read_ring_key
    pure (record {
      key_image = key_image;
      c0 = c0;
      responses = responses;
      ring_pubkeys = ring_pubkeys;
    })

  unfoldable pub deserialize_tx : Reader ShieldedTransaction
  deserialize_tx = do
    tx_hash ← read_key
    ring_sig ← deserialize_ring_sig
    out_count ← read_u32
    throw_if (ltb max_tx_outputs out_count) Error.too_many_tx_outputs
    outputs ← read_many out_count deserialize_output
    public_fee ← read_u64
    timestamp ← read_string
    pure (record {
      tx_hash = tx_hash;
      ring_sig = ring_sig;
      outputs = outputs;
      public_fee = public_fee;
      timestamp = timestamp;
    })

-- Two keys, if both are there.
unfoldable pub read_recipient : ℕ → Reader (List ℕ × List ℕ)
read_recipient left =
    if leb 64 left
    then (do view ← read_key; spend ← read_key; pure (view, spend))
    else pure (zero_key, zero_key)

unfoldable pub deserialize_deposit : Reader DepositReceipt
deserialize_deposit = do
  gross ← read_u64
  fee ← read_u64
  net ← read_u64
  tx_hash ← read_string
  left ← remaining
  (view, spend) ← read_recipient left
  pure (record {
    gross_usdt_deposited = gross;
    fee_to_pool = fee;
    net_shielded_tokens_minted = net;
    tx_hash = tx_hash;
    recipient_view_pub = view;
    recipient_spend_pub = spend;
  })

-- A key, if it is there.
unfoldable pub read_key_if_left : ℕ → Reader (List ℕ)
read_key_if_left left = if leb 32 left then read_key else pure zero_key

unfoldable pub read_destination : ℕ → Reader (List ℕ)
read_destination left = if ltb 4 left then read_string else pure []

unfoldable pub read_burn_proof : ℕ → Reader (List ℕ × List ℕ × List ℕ)
read_burn_proof left =
    if leb 96 left
    then (do utxo ← read_key; c0 ← read_key; s ← read_key; pure (utxo, c0, s))
    else pure (zero_key, zero_key, zero_key)

unfoldable pub deserialize_withdrawal : Reader WithdrawalReceipt
deserialize_withdrawal = do
  gross ← read_u64
  fee ← read_u64
  net ← read_u64
  order_id ← read_string
  left₁ ← remaining
  destination ← read_destination left₁
  left₂ ← remaining
  key_image ← read_key_if_left left₂
  left₃ ← remaining
  (utxo, c0, s) ← read_burn_proof left₃
  left₄ ← remaining
  change ← read_key_if_left left₄
  pure (record {
    gross_tokens_burned = gross;
    fee_to_pool = fee;
    net_usdt_to_tumble = net;
    order_id = order_id;
    destination_address = destination;
    key_image = key_image;
    burned_utxo_pubkey = utxo;
    burn_signature_c0 = c0;
    burn_signature_s = s;
    change_output_pubkey = change;
  })

-- A key of the quorum and its signature.
unfoldable pub read_quorum_entry : Reader (List ℕ × List ℕ)
read_quorum_entry = do pk ← read_key; sig ← read_bytes 64; pure (pk, sig)

-- The quorum of a header of version 3 or later.
unfoldable pub read_quorum : ℕ → ℕ → Reader (List (List ℕ × List ℕ))
read_quorum version left =
    if leb 3 version && leb 4 left
    then (do
      q_count ← read_u32
      throw_if (ltb 64 q_count) Error.too_many_quorum_signatures
      read_many q_count read_quorum_entry)
    else pure []

-- `push_back` on two vectors, entry by entry.
abbrev pub firsts : List (List ℕ × List ℕ) → List (List ℕ)
firsts [] = []
firsts ((a, b) ∷ ps) = a ∷ firsts ps

abbrev pub seconds : List (List ℕ × List ℕ) → List (List ℕ)
seconds [] = []
seconds ((a, b) ∷ ps) = b ∷ seconds ps

unfoldable pub deserialize_header : Reader BlockHeader
deserialize_header = do
  version ← read_u32
  height ← read_u64
  prev_block_hash ← read_key
  merkle_root ← read_key
  timestamp ← read_u64
  nonce ← read_u64
  validator_pubkey ← read_key
  validator_signature ← read_bytes 64
  left ← remaining
  quorum ← read_quorum version left
  pure (record {
    version = version;
    height = height;
    prev_block_hash = prev_block_hash;
    merkle_root = merkle_root;
    timestamp = timestamp;
    nonce = nonce;
    validator_pubkey = validator_pubkey;
    validator_signature = validator_signature;
    quorum_pubkeys = firsts quorum;
    quorum_signatures = seconds quorum;
  })

module _ (is_valid_point : List ℕ → Bool) where
  -- A list of outputs, if a count is there.
  unfoldable pub read_block_outputs : ℕ → Reader (List OneTimeOutput)
  read_block_outputs left =
      if leb 4 left
      then (do
        out_count ← read_u32
        throw_if (ltb max_block_outputs out_count) Error.too_many_block_outputs
        read_many out_count (deserialize_output is_valid_point))
      else pure []

  unfoldable pub read_block : Reader Block
  read_block = do
    header ← deserialize_header
    tx_count ← read_u32
    throw_if (ltb max_block_transactions tx_count) Error.too_many_transactions
    txs ← read_many tx_count (deserialize_tx is_valid_point)
    dep_count ← read_u32
    throw_if (ltb max_block_deposits dep_count) Error.too_many_deposits
    deposits ← read_many dep_count deserialize_deposit
    wdr_count ← read_u32
    throw_if (ltb max_block_withdrawals wdr_count) Error.too_many_withdrawals
    withdrawals ← read_many wdr_count deserialize_withdrawal
    left₁ ← remaining
    deposit_outputs ← read_block_outputs left₁
    left₂ ← remaining
    withdrawal_outputs ← read_block_outputs left₂
    pure (record {
      header = header;
      txs = txs;
      deposits = deposits;
      withdrawals = withdrawals;
      deposit_outputs = deposit_outputs;
      withdrawal_outputs = withdrawal_outputs;
    })

  -- What follows the block is ignored.
  unfoldable pub deserialize : List ℕ → Result Block
  unfolding read_block
  deserialize bytes = Errors.◌>>=◌ (read_block bytes) (λ p. ok p.0)
