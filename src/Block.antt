-- ===== src/Block.antt =====
-- include/block.hpp, include/stealth.hpp, include/ring_signature.hpp: the data of a block.
-- A key, hash or signature is a list of 32 or 64 bytes.
pub mod Encode
pub mod Decode
pub mod Format
pub mod Written
pub mod RoundTrip
pub mod HeaderTrip
pub mod WholeTrip
pub mod Sample
mod Runs
use cryptopeg.Prelude.{ℕ, ◌≡◌, List, [], replicate, length}
use cryptopeg.Vault.{DepositReceipt, WithdrawalReceipt}

abbrev pub zero_key : List ℕ
zero_key = replicate 32 0

abbrev pub zero_signature : List ℕ
zero_signature = replicate 64 0

abbrev pub IsKey : List ℕ → Type 0
IsKey k = length k ≡ 32

abbrev pub IsSignature : List ℕ → Type 0
IsSignature s = length s ≡ 64

abbrev pub protocol_version : ℕ
protocol_version = 3

pub record OneTimeOutput : Type 0 where
  pub ephemeral_public_key : List ℕ
  pub destination_one_time : List ℕ
  pub amount : ℕ

pub record RingSignature : Type 0 where
  pub key_image : List ℕ
  pub c0 : List ℕ
  pub responses : List (List ℕ)
  pub ring_pubkeys : List (List ℕ)

pub record ShieldedTransaction : Type 0 where
  pub tx_hash : List ℕ
  pub ring_sig : RingSignature
  pub outputs : List OneTimeOutput
  pub public_fee : ℕ
  pub timestamp : List ℕ

pub record BlockHeader : Type 0 where
  pub version : ℕ
  pub height : ℕ
  pub prev_block_hash : List ℕ
  pub merkle_root : List ℕ
  pub timestamp : ℕ
  pub nonce : ℕ
  pub validator_pubkey : List ℕ
  pub validator_signature : List ℕ
  pub quorum_pubkeys : List (List ℕ)
  pub quorum_signatures : List (List ℕ)

pub record Block : Type 0 where
  pub header : BlockHeader
  pub txs : List ShieldedTransaction
  pub deposits : List DepositReceipt
  pub withdrawals : List WithdrawalReceipt
  pub deposit_outputs : List OneTimeOutput
  pub withdrawal_outputs : List OneTimeOutput

-- The members' default values.
abbrev pub new_header : BlockHeader
new_header = record {
  version = protocol_version;
  height = 0;
  prev_block_hash = zero_key;
  merkle_root = zero_key;
  timestamp = 0;
  nonce = 0;
  validator_pubkey = zero_key;
  validator_signature = zero_signature;
  quorum_pubkeys = [];
  quorum_signatures = [];
}

abbrev pub new_block : Block
new_block = record {
  header = new_header;
  txs = [];
  deposits = [];
  withdrawals = [];
  deposit_outputs = [];
  withdrawal_outputs = [];
}

abbrev pub max_block_transactions : ℕ
max_block_transactions = 10000

abbrev pub max_block_deposits : ℕ
max_block_deposits = 10000

abbrev pub max_block_withdrawals : ℕ
max_block_withdrawals = 10000

abbrev pub max_block_outputs : ℕ
max_block_outputs = 20000

abbrev pub max_tx_outputs : ℕ
max_tx_outputs = 256
