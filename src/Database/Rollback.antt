-- ===== src/Database/Rollback.antt =====
-- src/blockchain_db.cpp: `rollback_top_block`.
use cryptopeg.Prelude.{
  ℕ, zero, suc, ◌-◌, Bool, true, false, ◌||◌, not, ◌==◌, Option, none, some, List, [], ◌∷◌, length,
  if◌then◌else◌,
}
use cryptopeg.Errors.{Result, ok, err, ◌>>=◌}
use cryptopeg.Vault.{DepositReceipt, WithdrawalReceipt, Vault, new_vault}
use cryptopeg.Vault
use cryptopeg.Block.{OneTimeOutput, ShieldedTransaction, Block, zero_key}
use cryptopeg.Block.Decode.{deserialize}
use cryptopeg.Quorum.{header_hash}
use cryptopeg.KeyImages.{canonical_key_image}
use cryptopeg.Sodium.{Sodium}
use cryptopeg.Lmdb.{Lmdb, Txn}
use cryptopeg.Database.{Tables, Database, height_key, vault_bytes, top_height_key, vault_state_key}

-- The vault after an action, or its exception. The receipts are dropped, so the random bytes of
-- their identifiers are left empty.
abbrev pub vault_then : {A : Type 0} → Result A × Vault → Result Vault
vault_then (err e, v) = err e
vault_then (ok _, v) = ok v

unfoldable pub replay_deposits : List DepositReceipt → Vault → Result Vault
replay_deposits [] v = ok v
replay_deposits (dep ∷ deps) v = do
  v' ← vault_then (Vault.deposit dep.gross_usdt_deposited dep.tx_hash [] v)
  replay_deposits deps v'

unfoldable pub replay_withdrawals : List WithdrawalReceipt → Vault → Result Vault
replay_withdrawals [] v = ok v
replay_withdrawals (wdr ∷ wdrs) v = do
  v' ← vault_then (Vault.request_withdrawal wdr.gross_tokens_burned [] v)
  replay_withdrawals wdrs v'

unfoldable pub replay_block : Block → Vault → Result Vault
replay_block b v = do v' ← replay_deposits b.deposits v; replay_withdrawals b.withdrawals v'

-- The keys of outputs, and of deposits whose hash is not empty.
unfoldable pub output_keys : List OneTimeOutput → List (List ℕ)
output_keys [] = []
output_keys (out ∷ outs) = out.destination_one_time ∷ output_keys outs

unfoldable pub deposit_keys : List DepositReceipt → List (List ℕ)
deposit_keys [] = []
deposit_keys (dep ∷ deps) =
    let rest = deposit_keys deps in if length dep.tx_hash == 0 then rest else dep.tx_hash ∷ rest

module _ (sodium : Sodium) where
  -- The canonical images under which the block's spends stand.
  unfoldable pub tx_images : List ShieldedTransaction → List (List ℕ)
  tx_images [] = []
  tx_images (tx ∷ txs) = canonical_key_image sodium tx.ring_sig.key_image ∷ tx_images txs

  unfoldable pub withdrawal_images : List WithdrawalReceipt → List (List ℕ)
  withdrawal_images [] = []
  withdrawal_images (wdr ∷ wdrs) = canonical_key_image sodium wdr.key_image ∷ withdrawal_images wdrs

module _ (sodium : Sodium) (lmdb : Lmdb) where
  -- `mdb_del` whose result is not read, and `mdb_put` likewise.
  abbrev pub or_same : Option lmdb.Table → lmdb.Table → lmdb.Table
  or_same none t = t
  or_same (some t') t = t'

  unfoldable pub del_all : List (List ℕ) → lmdb.Table → lmdb.Table
  del_all [] t = t
  del_all (k ∷ ks) t = del_all ks (or_same (lmdb.del k t) t)

  -- The loop over the transactions' outputs.
  unfoldable pub del_tx_outputs : List ShieldedTransaction → lmdb.Table → lmdb.Table
  del_tx_outputs [] t = t
  del_tx_outputs (tx ∷ txs) t = del_tx_outputs txs (del_all (output_keys tx.outputs) t)

  -- Steps 2 to 6, where `blocks` is what step 2 leaves.
  unfoldable pub without_block : Block → lmdb.Table → Tables sodium lmdb → Tables sodium lmdb
  without_block block blocks tables =
      let index = lmdb.del (header_hash sodium block.header) tables.block_index in
      let utxos₁ = del_all (output_keys block.deposit_outputs) tables.utxos in
      let utxos₂ = del_tx_outputs block.txs utxos₁ in
      let images = del_all (tx_images sodium block.txs) tables.key_images in
      record {
        blocks = blocks;
        block_index = or_same index tables.block_index;
        key_images = del_all (withdrawal_images sodium block.withdrawals) images;
        utxos = del_all (output_keys block.withdrawal_outputs) utxos₂;
        metadata = tables.metadata;
        deposit_txs = del_all (deposit_keys block.deposits) tables.deposit_txs;
      }

  -- Steps 1 to 6: the block is taken off; `none` where the method returns false before it touches the
  -- height and the hash in memory.
  unfoldable pub take_off : Tables sodium lmdb → ℕ → Option (Tables sodium lmdb)
  take_off tables top = elim (lmdb.get (height_key top) tables.blocks) [
    | none ↦ none
    | some bytes ↦ elim (deserialize sodium.is_valid_point bytes) [
      | err _ ↦ none
      | ok block ↦ elim (lmdb.del (height_key top) tables.blocks) [
        | none ↦ none
        | some blocks ↦ some (without_block block blocks tables)
      ]
    ]
  ]

  -- The hash of the new top: zero where there is no block, and an exception where it cannot be read.
  unfoldable pub new_top_hash : Tables sodium lmdb → ℕ → Result (List ℕ)
  new_top_hash tables height = elim (lmdb.get (height_key height) tables.blocks) [
    | none ↦ ok zero_key
    | some bytes ↦ deserialize sodium.is_valid_point bytes >>= λ b. ok (header_hash sodium b.header)
  ]

  -- A height of the loop of step 8: a block that is not there is passed over.
  unfoldable pub replay_height : Tables sodium lmdb → ℕ → Vault → Result Vault
  replay_height tables height v = elim (lmdb.get (height_key height) tables.blocks) [
    | none ↦ ok v
    | some bytes ↦ deserialize sodium.is_valid_point bytes >>= λ b. replay_block b v
  ]

  -- Heights 1 to `height`.
  unfoldable pub replay_chain : Tables sodium lmdb → ℕ → Vault → Result Vault
  replay_chain tables zero v = ok v
  replay_chain tables (suc height) v =
      replay_chain tables height v >>= λ v'. replay_height tables (suc height) v'

  -- Steps 7 and 8, once the height and the hash in memory are changed.
  unfoldable pub write_rollback : Tables sodium lmdb → ℕ → Result (Tables sodium lmdb)
  write_rollback tables height = do
    let metadata₁ =
        or_same (lmdb.put top_height_key (height_key height) tables.metadata) tables.metadata
    vault ← replay_chain tables height (new_vault 50 50)
    let metadata₂ = or_same (lmdb.put vault_state_key (vault_bytes vault) metadata₁) metadata₁
    ok (record tables { metadata = metadata₂ })

  abbrev pub commit_rollback :
      Txn → Database sodium lmdb → Result (Tables sodium lmdb) → Bool × Database sodium lmdb
  commit_rollback txn db (err e) = (false, db)
  commit_rollback txn db (ok tables) =
      if txn.commits then (true, record db { tables = tables }) else (false, db)

  -- The height and the hash in memory are changed before the transaction ends, and stay changed where
  -- it is aborted or not committed.
  abbrev pub lower :
      Txn
      → Database sodium lmdb
      → Tables sodium lmdb
      → Result (List ℕ)
      → Bool × Database sodium lmdb
  lower txn db tables (err e) = (false, db)
  lower txn db tables (ok hash) =
      let height = db.top_height - 1 in
      commit_rollback txn (record db { top_height = height; top_hash = hash })
        (write_rollback tables height)

  abbrev pub without_top :
      Txn → Database sodium lmdb → Option (Tables sodium lmdb) → Bool × Database sodium lmdb
  without_top txn db none = (false, db)
  without_top txn db (some tables) = lower txn db tables (new_top_hash tables (db.top_height - 1))

  unfoldable pub rollback_top_block : Txn → Database sodium lmdb → Bool × Database sodium lmdb
  rollback_top_block txn db =
      if not db.is_open || ((db.top_height == 0) || not txn.begins)
      then (false, db)
      else without_top txn db (take_off db.tables db.top_height)
