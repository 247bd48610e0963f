-- ===== src/Database.antt =====
-- include/blockchain_db.hpp and src/blockchain_db.cpp: the chain in the six tables of LMDB.
-- The tables are those of the last transaction that was committed; the mutex makes each method one
-- step. How a transaction begins and ends is an argument, a `Txn`.
pub mod Commit
pub mod Rollback
pub mod Keys
pub mod Lookup
pub mod Written
pub mod Success
pub mod Entries
pub mod Committed
pub mod Restart
pub mod Contents
pub mod Removed
pub mod Undo
pub mod Restored
pub mod Replayed
pub mod Undone
mod Runs
use cryptopeg.Prelude.{
  ℕ, zero, suc, ◌+◌, Bool, true, false, ◌&&◌, ◌||◌, not, ◌==◌, Option, none, some, List, [], ◌∷◌,
  length, if◌then◌else◌,
}
use cryptopeg.Errors.{Error, Result, ok, err, ◌>>=◌}
use cryptopeg.Vault.{DepositReceipt, Vault, restore_state}
use cryptopeg.Serial.{write_u64, read_u64}
use cryptopeg.Serial.BigEndian.{to_big_endian_64, from_big_endian_64}
use cryptopeg.Block.{OneTimeOutput, Block, zero_key}
use cryptopeg.Block.Encode.{serialize_output, serialize}
use cryptopeg.Block.Decode.{deserialize_output, deserialize}
use cryptopeg.Quorum.{header_hash}
use cryptopeg.KeyImages.{canonical_key_image}
use cryptopeg.Sodium.{Sodium}
use cryptopeg.Lmdb.{Lmdb, Txn}

-- "top_height" and "vault_state"
abbrev pub top_height_key : List ℕ
top_height_key = b't' ∷ b'o' ∷ b'p' ∷ b'_' ∷ b'h' ∷ b'e' ∷ b'i' ∷ b'g' ∷ b'h' ∷ b't' ∷ []

abbrev pub vault_state_key : List ℕ
vault_state_key = b'v' ∷ b'a' ∷ b'u' ∷ b'l' ∷ b't' ∷ b'_' ∷ b's' ∷ b't' ∷ b'a' ∷ b't' ∷ b'e' ∷ []

-- The bytes in memory of a height in big-endian.
unfoldable pub height_key : ℕ → List ℕ
height_key height = write_u64 [] (to_big_endian_64 height)

-- The height of eight such bytes; the bytes of another size are not read.
unfoldable pub height_of : List ℕ → Option ℕ
height_of bytes =
    if length bytes == 8
    then elim (read_u64 bytes) [ err _ ↦ none | ok (val, _) ↦ some (from_big_endian_64 val) ]
    else none

-- The value of "vault_state".
unfoldable pub vault_bytes : Vault → List ℕ
vault_bytes vault =
    let w₁ = write_u64 [] vault.total_collateral in
    let w₂ = write_u64 w₁ vault.circulating_supply in write_u64 w₂ vault.fee_pool_reserve

-- A value, and whether it is there.
abbrev pub is_some {ℓ} : {A : Type ℓ} → Option A → Bool
is_some none = false
is_some (some a) = true

unfoldable pub keys_of : List (List ℕ × List ℕ) → List (List ℕ)
keys_of [] = []
keys_of ((k, v) ∷ entries) = let rest = keys_of entries in if length k == 32 then k ∷ rest else rest

-- The three amounts of "vault_state".
unfoldable pub read_amounts : List ℕ → Result (ℕ × ℕ × ℕ)
read_amounts bytes = do
  (collateral, r₁) ← read_u64 bytes
  (circulating, r₂) ← read_u64 r₁
  (fee_pool, r₃) ← read_u64 r₂
  ok (collateral, circulating, fee_pool)

-- Whether an action returned, and the vault then: an exception is caught.
abbrev pub caught : Result (Unit {0}) × Vault → Bool × Vault
caught (ok _, v) = (true, v)
caught (err _, v) = (false, v)

module _ (sodium : Sodium) (lmdb : Lmdb) where
  pub record Tables : Type 0 where
    pub blocks : lmdb.Table
    pub block_index : lmdb.Table
    pub key_images : lmdb.Table
    pub utxos : lmdb.Table
    pub metadata : lmdb.Table
    pub deposit_txs : lmdb.Table

  pub record Database : Type 0 where
    -- `env_` is not null
    pub is_open : Bool
    pub tables : Tables
    pub top_height : ℕ
    pub top_hash : List ℕ

  abbrev pub block_of : Option (List ℕ) → Option Block
  block_of none = none
  block_of (some bytes) = elim (deserialize sodium.is_valid_point bytes) [
    | err _ ↦ none
    | ok b ↦ some b
  ]

  -- The block of a height, as it stands in the tables.
  unfoldable pub read_block_at : Tables → ℕ → Option Block
  read_block_at tables height = block_of (lmdb.get (height_key height) tables.blocks)

  abbrev pub hash_or_zero : Option Block → List ℕ
  hash_or_zero none = zero_key
  hash_or_zero (some b) = header_hash sodium b.header

  -- A read whose transaction begins.
  abbrev pub readable : Txn → Database → Bool
  readable txn db = db.is_open && txn.begins

  unfoldable pub init_top_height : Txn → Database → Database
  init_top_height txn db =
      let empty : Database = record db { top_height = 0; top_hash = zero_key } in
      if not (readable txn db) then empty else elim (lmdb.get top_height_key db.tables.metadata) [
        | none ↦ empty
        | some bytes ↦ elim (height_of bytes) [
          | none ↦ empty
          | some height ↦ record db {
            top_height = height;
            top_hash = hash_or_zero (read_block_at db.tables height);
          }
        ]
      ]

  unfoldable pub get_block_by_height : Txn → Database → ℕ → Option Block
  get_block_by_height txn db height =
      if readable txn db then read_block_at db.tables height else none

  unfoldable pub get_block_by_hash : Txn → Database → List ℕ → Option Block
  get_block_by_hash txn db hash =
      if readable txn db
      then elim (lmdb.get hash db.tables.block_index) [
        | none ↦ none
        | some bytes ↦
            if length bytes == 8 then block_of (lmdb.get bytes db.tables.blocks) else none
      ]
      else none

  unfoldable pub is_key_image_spent : Txn → Database → List ℕ → Bool
  is_key_image_spent txn db image =
      readable txn db && is_some (lmdb.get (canonical_key_image sodium image) db.tables.key_images)

  unfoldable pub is_deposit_tx_processed : Txn → Database → List ℕ → Bool
  is_deposit_tx_processed txn db tx_hash =
      if not db.is_open || (length tx_hash == 0)
      then false
      else txn.begins && is_some (lmdb.get tx_hash db.tables.deposit_txs)

  unfoldable pub load_all_key_images : Txn → Database → List (List ℕ)
  load_all_key_images txn db =
      if readable txn db && txn.opens then keys_of (lmdb.entries db.tables.key_images) else []

  -- An output that cannot be read is left out.
  abbrev pub cons_output : Result (OneTimeOutput × List ℕ) → List OneTimeOutput → List OneTimeOutput
  cons_output (err _) outs = outs
  cons_output (ok (out, _)) outs = out ∷ outs

  unfoldable pub outputs_of : List (List ℕ × List ℕ) → List OneTimeOutput
  outputs_of [] = []
  outputs_of ((k, v) ∷ entries) =
      cons_output (deserialize_output sodium.is_valid_point v) (outputs_of entries)

  unfoldable pub load_all_utxos : Txn → Database → List OneTimeOutput
  load_all_utxos txn db =
      if readable txn db && txn.opens then outputs_of (lmdb.entries db.tables.utxos) else []

  unfoldable pub load_vault_state : Txn → Database → Vault → Bool × Vault
  load_vault_state txn db vault =
      if readable txn db
      then elim (lmdb.get vault_state_key db.tables.metadata) [
        | none ↦ (false, vault)
        | some bytes ↦ elim (read_amounts bytes) [
          | err _ ↦ (false, vault)
          | ok (collateral, circulating, fee_pool) ↦
              caught (restore_state collateral circulating fee_pool vault)
        ]
      ]
      else (false, vault)

  -- A transaction that puts one value.
  unfoldable pub save_vault_state : Txn → Database → Vault → Bool × Database
  save_vault_state txn db vault =
      if readable txn db
      then elim (lmdb.put vault_state_key (vault_bytes vault) db.tables.metadata) [
        | none ↦ (false, db)
        | some metadata ↦
            if txn.commits
            then (true, record db { tables = record db.tables { metadata = metadata } })
            else (false, db)
      ]
      else (false, db)
