-- ===== src/Database/Entries.antt =====
-- src/blockchain_db.cpp: the entries of the index that `get_block_by_hash` follows.
use cryptopeg.Prelude.{
  ℕ, ◌≡◌, refl, Bool, true, false, ◌&&◌, ◌==◌, Option, some, List, length, if◌then◌else◌, bytes_eq,
  Option-cases, none, inl, inr,
}
use cryptopeg.Block.{Block}
use cryptopeg.Sodium.{Sodium}
use cryptopeg.Lmdb.{Lmdb, Txn}
use cryptopeg.Database.{Tables, Database, block_of, height_key, get_block_by_hash}
use cryptopeg.Database.Keys.{length-height_key}

pub length_eight : (h : ℕ) → (length (height_key h) == 8) ≡ true
length_eight h = rw (length-height_key h) refl

-- Whether an entry of the index is this key.
abbrev pub is_entry : List ℕ → Option (List ℕ) → Bool
is_entry key none = false
is_entry key (some bytes) = bytes_eq key bytes

module _ (sodium : Sodium) (lmdb : Lmdb) where
  -- The block of an entry of the index.
  unfoldable pub by_entry : Tables sodium lmdb → Option (List ℕ) → Option Block
  by_entry tables none = none
  by_entry tables (some bytes) =
      if length bytes == 8 then block_of sodium lmdb (lmdb.get bytes tables.blocks) else none

  pub get_block_by_hash-by_entry :
      (reading : Txn) (db : Database sodium lmdb) (q : List ℕ)
      → db.is_open ≡ true
      → reading.begins ≡ true
      → get_block_by_hash sodium lmdb reading db q
        ≡ by_entry db.tables (lmdb.get q db.tables.block_index)
  unfolding get_block_by_hash by_entry
  get_block_by_hash-by_entry reading db q opened readable =
      let ready : (db.is_open && reading.begins) ≡ true = rw (opened, readable) refl in
      rw (get_block_by_hash, ready)
        (elim (Option-cases (lmdb.get q db.tables.block_index)) [
          | inl absent ↦ rw absent refl
          | inr (b, present) ↦ rw present refl
        ])
