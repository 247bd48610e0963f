-- ===== src/Node.antt =====
-- include/node.hpp and src/node.cpp: the state of a node, and why it refuses a block.
-- The mutex makes each method one step. What is printed and the callbacks are left out.
pub mod Fork
pub mod Header
pub mod Deposits
pub mod Transfers
pub mod Burns
pub mod Apply
pub mod Submit
pub mod Submitted
pub mod Treasury
pub mod OneTx
pub mod Mined
pub mod Accepted
pub mod Refused
pub mod Fresh
pub mod Checks
pub mod Accepts
pub mod Spending
pub mod Denomination
pub mod Ledger
pub mod Balance
pub mod Conservation
pub mod Sample
mod Runs
pub mod Choice
pub mod Rival
pub mod Recipient
use cryptopeg.Prelude.{
  ℕ, zero, suc, ◌+◌, Bool, true, false, Option, none, some, List, [], ◌∷◌, ◌++◌, if◌then◌else◌,
}
use cryptopeg.Errors.{Error, Result, ok, err}
use cryptopeg.Vault.{Vault}
use cryptopeg.Block.{OneTimeOutput, ShieldedTransaction, Block, new_block}
use cryptopeg.KeyImages.{KeyImageLedger, clear, restore_key_image}
use cryptopeg.Quorum.{contains_key}
use cryptopeg.Sodium.{Sodium}
use cryptopeg.Lmdb.{Lmdb, Txn}
use cryptopeg.Database.{
  Database, get_block_by_height, load_all_key_images, load_all_utxos, load_vault_state,
}

-- The ways in which `apply_remote_block` refuses a block, one constructor for each message, and the
-- exceptions that it lets through.
pub data Refusal : Type 0 where
  no_local_top no_common_ancestor local_preferred rollback_failed : Refusal
  wrong_height wrong_previous wrong_root : Refusal
  no_validators low_quorum bad_signature unknown_validator : Refusal
  deposit_count no_deposit_hash deposit_replayed deposit_twice deposit_of_zero : Refusal
  deposit_fee deposit_amount no_ephemeral_key wrong_ephemeral_key no_recipient : Refusal
  bad_recipient no_shared_point no_hash_point no_destination wrong_destination : Refusal
  bad_destination deposit_refused : Refusal
  wrong_tx_hash bad_ring_signature spent_in_block spent_before : Refusal
  output_of_zero outputs_overflow ring_repeats mixed_ring unknown_member unbalanced : Refusal
  change_of_zero bad_change burn_of_zero burn_fee bad_address unknown_utxo : Refusal
  utxo_too_small no_change change_key_left bad_burn_proof burnt_before burnt_in_block : Refusal
  withdrawal_refused orphan_change insolvent commit_failed : Refusal
  threw : Error → Refusal

-- What a check comes to.
pub data Verdict (A : Type 0) : Type 0 where
  refuse : Refusal → Verdict A
  accept : A → Verdict A

infixl 5 ◌>>=◌ ◌>>◌
abbrev pub ◌>>=◌ : {A B : Type 0} → Verdict A → (A → Verdict B) → Verdict B
refuse r >>= next = refuse r
accept a >>= next = next a

abbrev pub ◌>>◌ : {B : Type 0} → Verdict (Unit {0}) → Verdict B → Verdict B
first >> rest = first >>= λ done. rest

-- `if (bad) { error_msg = r; return false; }`
abbrev pub refuse_if : Bool → Refusal → Verdict (Unit {0})
refuse_if true r = refuse r
refuse_if false r = accept tt

-- A call of libsodium whose failure refuses the block.
abbrev pub or_refuse : Option (List ℕ) → Refusal → Verdict (List ℕ)
or_refuse none r = refuse r
or_refuse (some p) r = accept p

-- A call whose exception is not caught.
abbrev pub uncaught : {A : Type 0} → Result A → Verdict A
uncaught (err e) = refuse (threw e)
uncaught (ok a) = accept a

module _ (sodium : Sodium) (lmdb : Lmdb) where
  pub record Node : Type 0 where
    pub db : Database sodium lmdb
    pub vault : Vault
    pub key_image_ledger : KeyImageLedger
    pub utxo_pool : List OneTimeOutput
    pub tx_history : List ShieldedTransaction
    pub has_validator_key : Bool
    pub validator_secret_key : List ℕ
    pub validator_pubkey : List ℕ
    pub authorized_validators : List (List ℕ)
    pub validator_quorum_threshold : ℕ

  unfoldable pub add_authorized_validator : List ℕ → Node → Node
  add_authorized_validator pub_key node =
      if contains_key node.authorized_validators pub_key
      then node
      else record node { authorized_validators = node.authorized_validators ++ (pub_key ∷ []) }

  unfoldable pub restore_all : List (List ℕ) → KeyImageLedger → KeyImageLedger
  restore_all [] ledger = ledger
  restore_all (image ∷ images) ledger = restore_all images (restore_key_image image ledger)

  abbrev pub txs_of : Option Block → List ShieldedTransaction
  txs_of none = []
  txs_of (some b) = b.txs

  -- The transactions of the heights from 1 to `height`.
  unfoldable pub history : Txn → Database sodium lmdb → ℕ → List ShieldedTransaction
  history reading db zero = []
  history reading db (suc height) =
      history reading db height ++ txs_of (get_block_by_height sodium lmdb reading db (suc height))

  unfoldable pub recover_state_from_db : Txn → Node → Node
  recover_state_from_db reading node = record node {
    vault = (load_vault_state sodium lmdb reading node.db node.vault).1;
    utxo_pool = load_all_utxos sodium lmdb reading node.db;
    key_image_ledger =
        restore_all (load_all_key_images sodium lmdb reading node.db) (clear node.key_image_ledger);
    tx_history = history reading node.db node.db.top_height;
  }
