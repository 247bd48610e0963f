-- ===== src/Database/Success.antt =====
-- src/blockchain_db.cpp: what a commit that succeeded did, and what the readers do on an open database.
use cryptopeg.Prelude.{
  ℕ, ◌≡◌, refl, sym, ap, arith, Bool, true, false, ◌&&◌, not, ◌==◌, some, List, length,
  if◌then◌else◌,
}
use cryptopeg.Errors.{Error, Result, ok, err}
use cryptopeg.Vault.{Vault}
use cryptopeg.Block.{OneTimeOutput, Block}
use cryptopeg.Quorum.{header_hash}
use cryptopeg.KeyImages.{canonical_key_image}
use cryptopeg.Sodium.{Sodium}
use cryptopeg.Lmdb.{Lmdb, Txn}
use cryptopeg.Database.{
  Tables, Database, is_some, block_of, height_key, get_block_by_height, get_block_by_hash,
  is_key_image_spent, is_deposit_tx_processed, read_block_at,
}
use cryptopeg.Database.Commit.{write_block, commit_written, commit_block}

module _ (sodium : Sodium) (lmdb : Lmdb) where
  -- A commit that succeeded: the transaction, and the tables that it wrote.
  pub record Success (txn : Txn) (block : Block) (vault : Vault) (new_utxos : List OneTimeOutput)
      (spent_images : List (List ℕ)) (db db' : Database sodium lmdb) : Type 0 where
    pub opened : db.is_open ≡ true
    pub begun : txn.begins ≡ true
    pub committed : txn.commits ≡ true
    pub tables : Tables sodium lmdb
    pub written : write_block sodium lmdb block vault new_utxos spent_images db.tables ≡ ok tables
    pub after : db' ≡ record db {
      tables = tables;
      top_height = block.header.height;
      top_hash = header_hash sodium block.header;
    }

  -- A method that is over with an exception, or goes on.
  abbrev Outcome : Type 0
  Outcome = Result (Unit {0}) × Database sodium lmdb

  went_on :
      (stop : Bool) (e : Error) (db db' : Database sodium lmdb) (rest : Outcome)
      → (if not stop then (err e, db) else rest) ≡ (ok tt, db')
      → (stop ≡ true) × (rest ≡ (ok tt, db'))
  went_on true e db db' rest h = (refl, h)
  went_on false e db db' rest h = cc (ap (λ (p : Outcome). p.0) h)

  went_back :
      (c : Bool) (e : Error) (db db' new : Database sodium lmdb)
      → ◌≡◌ {A = Outcome} (if c then (ok tt, new) else (err e, db)) (ok tt, db')
      → (c ≡ true) × (db' ≡ new)
  went_back true e db db' new h = (refl, sym (ap (λ (p : Outcome). p.1) h))
  went_back false e db db' new h = cc (ap (λ (p : Outcome). p.0) h)

  written_and_ended :
      (txn : Txn) (block : Block) (db db' : Database sodium lmdb) (r : Result (Tables sodium lmdb))
      → commit_written sodium lmdb txn db block r ≡ (ok tt, db')
      → (tables : Tables sodium lmdb) × (r ≡ ok tables)
        × (txn.commits ≡ true)
        × (db' ≡ record db {
          tables = tables;
          top_height = block.header.height;
          top_hash = header_hash sodium block.header;
        })
  written_and_ended txn block db db' (err e) h = cc (ap (λ (p : Outcome). p.0) h)
  written_and_ended txn block db db' (ok tables) h =
      let (c, new) = went_back txn.commits Error.txn_commit_failed db db' _ h in
      (tables, refl, c, new)

  module _ (txn : Txn) (block : Block) (vault : Vault) (new_utxos : List OneTimeOutput)
      (spent_images : List (List ℕ)) (db db' : Database sodium lmdb) where
    pub commit_block-Success :
        commit_block sodium lmdb txn block vault new_utxos spent_images db ≡ (ok tt, db')
        → Success txn block vault new_utxos spent_images db db'
    unfolding commit_block
    commit_block-Success c =
        let (opened, c₁) = went_on db.is_open Error.db_closed db db' _ c in
        let (begun, c₂) = went_on txn.begins Error.txn_begin_failed db db' _ c₁ in
        let (tables, written, committed, after) = written_and_ended txn block db db' _ c₂ in
        record {
          opened = opened;
          begun = begun;
          committed = committed;
          tables = tables;
          written = written;
          after = after;
        }

  -- What the readers do on a database that is open.
  module _ (reading : Txn) (db : Database sodium lmdb) (opened : db.is_open ≡ true)
      (readable : reading.begins ≡ true) (q : List ℕ) where
    pub get_block_by_height-open :
        (h : ℕ)
        → get_block_by_height sodium lmdb reading db h
          ≡ block_of sodium lmdb (lmdb.get (height_key h) db.tables.blocks)
    unfolding get_block_by_height read_block_at
    get_block_by_height-open h = ground arith

    pub is_key_image_spent-open :
        is_key_image_spent sodium lmdb reading db q
        ≡ is_some (lmdb.get (canonical_key_image sodium q) db.tables.key_images)
    unfolding is_key_image_spent
    is_key_image_spent-open = ground arith

    pub is_deposit_tx_processed-open :
        is_deposit_tx_processed sodium lmdb reading db q
        ≡ not (length q == 0) && is_some (lmdb.get q db.tables.deposit_txs)
    unfolding is_deposit_tx_processed
    is_deposit_tx_processed-open = ground arith

    pub get_block_by_hash-open :
        (key : List ℕ)
        → lmdb.get q db.tables.block_index ≡ some key
        → length key ≡ 8
        → get_block_by_hash sodium lmdb reading db q
          ≡ block_of sodium lmdb (lmdb.get key db.tables.blocks)
    unfolding get_block_by_hash
    get_block_by_hash-open key found eight = ground arith
