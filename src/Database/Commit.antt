-- ===== src/Database/Commit.antt =====
-- src/blockchain_db.cpp: `commit_block`.
use cryptopeg.Prelude.{ℕ, not, ◌==◌, Option, none, some, List, [], ◌∷◌, length, if◌then◌else◌}
use cryptopeg.Errors.{Error, Result, ok, err, ◌>>=◌}
use cryptopeg.Vault.{DepositReceipt, Vault}
use cryptopeg.Block.{OneTimeOutput, Block}
use cryptopeg.Block.Encode.{serialize_output, serialize}
use cryptopeg.Quorum.{header_hash}
use cryptopeg.KeyImages.{canonical_key_image}
use cryptopeg.Sodium.{Sodium}
use cryptopeg.Lmdb.{Lmdb, Txn}
use cryptopeg.Database.{Tables, Database, height_key, vault_bytes, top_height_key, vault_state_key}

module _ (sodium : Sodium) (lmdb : Lmdb) where
  -- A call of `mdb_put` whose failure throws.
  abbrev pub put_or : Error → Option lmdb.Table → Result lmdb.Table
  put_or e none = err e
  put_or e (some t) = ok t

  unfoldable pub put_images : List ℕ → List (List ℕ) → lmdb.Table → Result lmdb.Table
  put_images height [] t = ok t
  put_images height (image ∷ images) t = do
    t' ← put_or Error.put_image_failed (lmdb.put (canonical_key_image sodium image) height t)
    put_images height images t'

  unfoldable pub put_utxos : List OneTimeOutput → lmdb.Table → Result lmdb.Table
  put_utxos [] t = ok t
  put_utxos (out ∷ outs) t = do
    t' ←
        put_or Error.put_utxo_failed (lmdb.put out.destination_one_time (serialize_output [] out) t)
    put_utxos outs t'

  -- The deposits with a hash.
  unfoldable pub put_deposits : List ℕ → List DepositReceipt → lmdb.Table → Result lmdb.Table
  put_deposits height [] t = ok t
  put_deposits height (dep ∷ deps) t = do
    t' ←
        if length dep.tx_hash == 0
        then ok t
        else put_or Error.put_deposit_failed (lmdb.put dep.tx_hash height t)
    put_deposits height deps t'

  -- What the transaction of `commit_block` writes.
  unfoldable pub write_block :
      Block
      → Vault
      → List OneTimeOutput
      → List (List ℕ)
      → Tables sodium lmdb
      → Result (Tables sodium lmdb)
  write_block block vault new_utxos spent_images tables = do
    let height = height_key block.header.height
    bytes ← serialize block
    blocks ← put_or Error.put_block_failed (lmdb.put height bytes tables.blocks)
    block_index ←
        put_or Error.put_index_failed
          (lmdb.put (header_hash sodium block.header) height tables.block_index)
    key_images ← put_images height spent_images tables.key_images
    utxos ← put_utxos new_utxos tables.utxos
    deposit_txs ← put_deposits height block.deposits tables.deposit_txs
    with_height ← put_or Error.put_height_failed (lmdb.put top_height_key height tables.metadata)
    metadata ←
        put_or Error.put_vault_failed (lmdb.put vault_state_key (vault_bytes vault) with_height)
    ok (record {
      blocks = blocks;
      block_index = block_index;
      key_images = key_images;
      utxos = utxos;
      metadata = metadata;
      deposit_txs = deposit_txs;
    })

  -- The end of a transaction that wrote, or threw and is aborted. Where `mdb_txn_commit` fails it has
  -- freed the transaction, and the source aborts it once more: what that does is undefined, and is
  -- taken to be nothing.
  abbrev pub commit_written :
      Txn
      → Database sodium lmdb
      → Block
      → Result (Tables sodium lmdb)
      → Result (Unit {0}) × Database sodium lmdb
  commit_written txn db block (err e) = (err e, db)
  commit_written txn db block (ok tables) =
      if txn.commits
      then (
        ok tt,
        record db {
          tables = tables;
          top_height = block.header.height;
          top_hash = header_hash sodium block.header;
        },
      )
      else (err Error.txn_commit_failed, db)

  unfoldable pub commit_block :
      Txn
      → Block
      → Vault
      → List OneTimeOutput
      → List (List ℕ)
      → Database sodium lmdb
      → Result (Unit {0}) × Database sodium lmdb
  commit_block txn block vault new_utxos spent_images db =
      if not db.is_open
      then (err Error.db_closed, db)
      else if not txn.begins
      then (err Error.txn_begin_failed, db)
      else commit_written txn db block (write_block block vault new_utxos spent_images db.tables)
