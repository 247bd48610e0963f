-- ===== src/Block/Format.antt =====
-- src/block.cpp: the wire format as plain lists of bytes, and what a block that can be sent and read
-- back has to satisfy: the sizes, the counts and the points that the readers check.
use cryptopeg.Prelude.{ℕ, ◌^◌, ◌≤◌, ◌<◌, ◌≡◌, true, Bool, List, [], ◌∷◌, ◌++◌, length, All}
use cryptopeg.Vault.{DepositReceipt, WithdrawalReceipt}
use cryptopeg.Serial.{max_serialized_string_bytes}
use cryptopeg.Serial.Format.{u32_bytes, u64_bytes, string_bytes, list_bytes}
use cryptopeg.Block.{
  OneTimeOutput, RingSignature, ShieldedTransaction, BlockHeader, Block, IsKey, IsSignature,
  zero_signature, max_block_transactions, max_block_deposits, max_block_withdrawals,
  max_block_outputs, max_tx_outputs,
}

unfoldable pub output_bytes : OneTimeOutput → List ℕ
output_bytes out = out.ephemeral_public_key ++ (out.destination_one_time ++ u64_bytes out.amount)

abbrev pub key_bytes : List ℕ → List ℕ
key_bytes k = k

-- A count, and the elements.
unfoldable pub counted_bytes {ℓ} : {A : Type ℓ} → (A → List ℕ) → List A → List ℕ
counted_bytes bytes xs = u32_bytes (length xs) ++ list_bytes bytes xs

unfoldable pub ring_sig_bytes : RingSignature → List ℕ
ring_sig_bytes sig =
    sig.key_image
    ++ (sig.c0
        ++ (counted_bytes key_bytes sig.responses ++ counted_bytes key_bytes sig.ring_pubkeys))

unfoldable pub tx_bytes : ShieldedTransaction → List ℕ
tx_bytes tx =
    tx.tx_hash
    ++ (ring_sig_bytes tx.ring_sig
        ++ (counted_bytes output_bytes tx.outputs
            ++ (u64_bytes tx.public_fee ++ string_bytes tx.timestamp)))

unfoldable pub deposit_bytes : DepositReceipt → List ℕ
deposit_bytes dep =
    u64_bytes dep.gross_usdt_deposited
    ++ (u64_bytes dep.fee_to_pool
        ++ (u64_bytes dep.net_shielded_tokens_minted
            ++ (string_bytes dep.tx_hash ++ (dep.recipient_view_pub ++ dep.recipient_spend_pub))))

-- The keys at the end of a withdrawal.
unfoldable pub burn_bytes : WithdrawalReceipt → List ℕ
burn_bytes wdr =
    wdr.key_image
    ++ (wdr.burned_utxo_pubkey
        ++ (wdr.burn_signature_c0 ++ (wdr.burn_signature_s ++ wdr.change_output_pubkey)))

unfoldable pub withdrawal_bytes : WithdrawalReceipt → List ℕ
withdrawal_bytes wdr =
    u64_bytes wdr.gross_tokens_burned
    ++ (u64_bytes wdr.fee_to_pool
        ++ (u64_bytes wdr.net_usdt_to_tumble
            ++ (string_bytes wdr.order_id
                ++ (string_bytes wdr.destination_address ++ burn_bytes wdr))))

unfoldable pub quorum_bytes : List (List ℕ) → List (List ℕ) → List ℕ
quorum_bytes [] sigs = []
quorum_bytes (pk ∷ pks) [] = pk ++ (zero_signature ++ quorum_bytes pks [])
quorum_bytes (pk ∷ pks) (sig ∷ sigs) = pk ++ (sig ++ quorum_bytes pks sigs)

-- The header up to the quorum.
unfoldable pub header_front : BlockHeader → List ℕ
header_front h =
    u32_bytes h.version
    ++ (u64_bytes h.height
        ++ (h.prev_block_hash
            ++ (h.merkle_root
                ++ (u64_bytes h.timestamp
                    ++ (u64_bytes h.nonce ++ (h.validator_pubkey ++ h.validator_signature))))))

unfoldable pub header_bytes : BlockHeader → List ℕ
header_bytes h =
    header_front h
    ++ (u32_bytes (length h.quorum_pubkeys) ++ quorum_bytes h.quorum_pubkeys h.quorum_signatures)

unfoldable pub block_bytes : Block → List ℕ
block_bytes b =
    header_bytes b.header
    ++ (counted_bytes tx_bytes b.txs
        ++ (counted_bytes deposit_bytes b.deposits
            ++ (counted_bytes withdrawal_bytes b.withdrawals
                ++ (counted_bytes output_bytes b.deposit_outputs
                    ++ counted_bytes output_bytes b.withdrawal_outputs))))

-- The size of a `uint32_t` count.
abbrev pub Fits {ℓ} : {A : Type ℓ} → List A → Type 0
Fits xs = length xs < 2 ^ 32

abbrev pub IsU64 : ℕ → Type 0
IsU64 n = n < 2 ^ 64

abbrev pub IsShort : List ℕ → Type 0
IsShort str = length str ≤ max_serialized_string_bytes

pub record IsDeposit (dep : DepositReceipt) : Type 0 where
  pub gross : IsU64 dep.gross_usdt_deposited
  pub fee : IsU64 dep.fee_to_pool
  pub net : IsU64 dep.net_shielded_tokens_minted
  pub hash : IsShort dep.tx_hash
  pub view : IsKey dep.recipient_view_pub
  pub spend : IsKey dep.recipient_spend_pub

pub record IsWithdrawal (wdr : WithdrawalReceipt) : Type 0 where
  pub gross : IsU64 wdr.gross_tokens_burned
  pub fee : IsU64 wdr.fee_to_pool
  pub net : IsU64 wdr.net_usdt_to_tumble
  pub order : IsShort wdr.order_id
  pub destination : IsShort wdr.destination_address
  pub image : IsKey wdr.key_image
  pub utxo : IsKey wdr.burned_utxo_pubkey
  pub c0 : IsKey wdr.burn_signature_c0
  pub s : IsKey wdr.burn_signature_s
  pub change : IsKey wdr.change_output_pubkey

-- A header but for its quorum.
pub record IsHeaderFront (h : BlockHeader) : Type 0 where
  pub version : h.version < 2 ^ 32
  pub height : IsU64 h.height
  pub prev : IsKey h.prev_block_hash
  pub root : IsKey h.merkle_root
  pub time : IsU64 h.timestamp
  pub nonce : IsU64 h.nonce
  pub key : IsKey h.validator_pubkey
  pub signature : IsSignature h.validator_signature

-- A quorum of at most 64 keys, each with its signature.
pub record IsQuorum (h : BlockHeader) : Type 0 where
  pub few : length h.quorum_pubkeys ≤ 64
  pub paired : length h.quorum_signatures ≡ length h.quorum_pubkeys
  pub keys : All IsKey h.quorum_pubkeys
  pub signatures : All IsSignature h.quorum_signatures

module _ (is_valid_point : List ℕ → Bool) where
  pub record IsPoint (k : List ℕ) : Type 0 where
    pub size : IsKey k
    pub valid : is_valid_point k ≡ true

  pub record IsOutput (out : OneTimeOutput) : Type 0 where
    pub ephemeral : IsPoint out.ephemeral_public_key
    pub destination : IsPoint out.destination_one_time
    pub amount : IsU64 out.amount

  pub record IsRingSignature (sig : RingSignature) : Type 0 where
    pub image : IsPoint sig.key_image
    pub c0 : IsKey sig.c0
    pub some_keys : 1 ≤ length sig.responses
    pub few_keys : length sig.responses ≤ 64
    pub paired : length sig.ring_pubkeys ≡ length sig.responses
    pub responses : All IsKey sig.responses
    pub ring : All IsPoint sig.ring_pubkeys

  pub record IsTransaction (tx : ShieldedTransaction) : Type 0 where
    pub hash : IsKey tx.tx_hash
    pub ring_sig : IsRingSignature tx.ring_sig
    pub few : length tx.outputs ≤ max_tx_outputs
    pub outputs : All IsOutput tx.outputs
    pub fee : IsU64 tx.public_fee
    pub time : IsShort tx.timestamp

  -- A block that can be sent: version 3 or later, and everything within the protocol's limits.
  pub record IsSendable (b : Block) : Type 0 where
    pub modern : 3 ≤ b.header.version
    pub front : IsHeaderFront b.header
    pub quorum : IsQuorum b.header
    pub few_txs : length b.txs ≤ max_block_transactions
    pub txs : All IsTransaction b.txs
    pub few_deposits : length b.deposits ≤ max_block_deposits
    pub deposits : All IsDeposit b.deposits
    pub few_withdrawals : length b.withdrawals ≤ max_block_withdrawals
    pub withdrawals : All IsWithdrawal b.withdrawals
    pub few_outputs : length b.deposit_outputs ≤ max_block_outputs
    pub deposit_outputs : All IsOutput b.deposit_outputs
    pub few_changes : length b.withdrawal_outputs ≤ max_block_outputs
    pub withdrawal_outputs : All IsOutput b.withdrawal_outputs
