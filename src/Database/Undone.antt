-- ===== src/Database/Undone.antt =====
-- src/blockchain_db.cpp: `rollback_top_block` takes off what `commit_block` added.
use cryptopeg.Prelude.{
  ℕ, ◌<◌, ◌≤◌, ◌^◌, ◌+◌, ◌-◌, ◌≡◌, refl, sym, ap, ◌∙◌, arith, true, false, ◌&&◌, not, ◌==◌, none,
  some, List, length, if◌then◌else◌, bytes_eq, bytes_eq_refl,
}
use cryptopeg.Errors.{ok}
use cryptopeg.Vault.{Vault, new_vault}
use cryptopeg.Block.{Block}
use cryptopeg.Block.Format.{IsSendable}
use cryptopeg.Quorum.{contains_key, header_hash}
use cryptopeg.KeyImages.{canonical_key_image}
use cryptopeg.Sodium.{Sodium}
use cryptopeg.Lmdb.{Lmdb, IsMap, NeverFull, Txn}
use cryptopeg.Database.{
  Tables, Database, vault_bytes, top_height_key, vault_state_key, hash_or_zero, block_of,
  height_key, get_block_by_height, is_key_image_spent, is_deposit_tx_processed,
}
use cryptopeg.Database.Commit.{commit_block}
use cryptopeg.Database.Rollback.{deposit_keys}
use cryptopeg.Database.Keys.{bytes_eq-height_key}
use cryptopeg.Database.Lookup.{canonical_images}
use cryptopeg.Database.Rollback.{
  output_keys, take_off, new_top_hash, replay_chain, rollback_top_block,
}
use cryptopeg.Database.Contents.{block_images, block_outputs}
use cryptopeg.Database.Restored.{
  ne_above, twice, last_output-absent, is_some-undone, get-undone, block_of-undone,
}
use cryptopeg.Database.Replayed.{replay_chain-same, rolled_metadata_get}
use cryptopeg.Database.Removed.{Removed, take_off-Removed}
use cryptopeg.Database.Committed.{deserialize-bytes}
use cryptopeg.Database.Success.{
  commit_block-Success, get_block_by_height-open, is_key_image_spent-open,
  is_deposit_tx_processed-open,
}
use cryptopeg.Database.Undo.{rolled_metadata, rollback_top_block-Undo, new_top_hash-eq}
use cryptopeg.Database.Written.{Written, write_block-Written}

module _ (sodium : Sodium) (lmdb : Lmdb) where
  module _ (map : IsMap lmdb) (full : NeverFull lmdb) (txn undoing reading : Txn) (block : Block)
      (vault : Vault) (db db' db'' : Database sodium lmdb)
      (sendable : IsSendable sodium.is_valid_point block) (readable : reading.begins ≡ true)
      (next : block.header.height ≡ db.top_height + 1)
      (done : commit_block sodium lmdb txn block vault (block_outputs block) (block_images block) db
        ≡ (ok tt, db'))
      (undone : rollback_top_block sodium lmdb undoing db' ≡ (true, db'')) where
    -- The two steps: the tables after the commit, those without the block, and the database in the end.
    record Rolled : Type 0 where
      t : Tables sodium lmdb
      t' : Tables sodium lmdb
      hash : List ℕ
      replayed_vault : Vault
      opened : db.is_open ≡ true
      at :
          (k : List ℕ)
          → Written sodium lmdb block vault (block_outputs block) (block_images block) db.tables t k
      off : (k : List ℕ) → Removed sodium lmdb block block.header.height t t' k
      hashed : new_top_hash sodium lmdb t' db.top_height ≡ ok hash
      replayed : replay_chain sodium lmdb t' db.top_height (new_vault 50 50) ≡ ok replayed_vault
      after : db'' ≡ record {
        is_open = true;
        tables = record t' {
          metadata = rolled_metadata sodium lmdb db.top_height replayed_vault t'.metadata;
        };
        top_height = db.top_height;
        top_hash = hash;
      }

    rolled : Rolled
    rolled =
        let s =
          commit_block-Success sodium lmdb txn block vault (block_outputs block)
            (block_images block) db db' done in
        let u = rollback_top_block-Undo sodium lmdb undoing db' db'' undone in
        let key = height_key block.header.height in
        let at = λ (k : List ℕ).
          write_block-Written sodium lmdb map block vault (block_outputs block) (block_images block)
            db.tables s.tables k s.written in
        let found : lmdb.get key s.tables.blocks ≡ some (at key).bytes =
          (at key).blocks ∙ rw (bytes_eq_refl key) refl in
        let read =
          deserialize-bytes sodium lmdb block (at key).bytes sendable (at key).serialized in
        let top : db'.top_height ≡ block.header.height =
          ap (λ (d : Database sodium lmdb). d.top_height) s.after in
        let kept : db'.tables ≡ s.tables = ap (λ (d : Database sodium lmdb). d.tables) s.after in
        let opened : db'.is_open ≡ true =
          ap (λ (d : Database sodium lmdb). d.is_open) s.after ∙ s.opened in
        let taken : take_off sodium lmdb s.tables block.header.height ≡ some u.tables =
          cc (u.taken, top, kept) in
        let last : db'.top_height - 1 ≡ db.top_height = omega (arith, top, next) in
        record {
          t = s.tables;
          t' = u.tables;
          hash = u.hash;
          replayed_vault = u.vault;
          opened = s.opened;
          at = at;
          off = λ k.
              take_off-Removed sodium lmdb map full block block.header.height (at key).bytes
                s.tables u.tables k found read taken;
          hashed = rw last at u.hashed;
          replayed = rw last at u.replayed;
          after = u.after ∙ rw (last, opened) refl;
        }

    -- What a height finds among the blocks.
    blocks_undone :
        (r : Rolled) (k : ℕ)
        → k < 2 ^ 64
        → block_of sodium lmdb (lmdb.get (height_key k) r.t'.blocks) ≡ (
            if block.header.height == k
            then none
            else block_of sodium lmdb (lmdb.get (height_key k) db.tables.blocks))
    blocks_undone r k below =
        rw (← bytes_eq-height_key block.header.height k sendable.front.height below) (
          block_of-undone sodium lmdb (bytes_eq (height_key block.header.height) (height_key k))
            (r.at (height_key k)).bytes (lmdb.get (height_key k) r.t'.blocks)
            (lmdb.get (height_key k) r.t.blocks) (lmdb.get (height_key k) db.tables.blocks)
            (r.off (height_key k)).blocks (r.at (height_key k)).blocks)

    other_height : (k : ℕ) → k ≤ db.top_height → (block.header.height == k) ≡ false
    other_height k below = ne_above block.header.height k (omega (arith, next))

    -- The blocks below are the bytes that they were.
    bytes_below :
        (r : Rolled) (k : ℕ)
        → k ≤ db.top_height
        → lmdb.get (height_key k) r.t'.blocks ≡ lmdb.get (height_key k) db.tables.blocks
    bytes_below r k below =
        let apart : bytes_eq (height_key block.header.height) (height_key k) ≡ false =
          bytes_eq-height_key block.header.height k sendable.front.height
            (omega (arith, sendable.front.height, next))
          ∙ other_height k below in
        (r.off (height_key k)).blocks ∙ rw apart ((r.at (height_key k)).blocks ∙ rw apart refl)

    -- What a key finds in the metadata after the rollback.
    metadata_undone :
        (r : Rolled) (q : List ℕ)
        → lmdb.get q (rolled_metadata sodium lmdb db.top_height r.replayed_vault r.t'.metadata) ≡ (
            if bytes_eq vault_state_key q
            then some (vault_bytes r.replayed_vault)
            else if bytes_eq top_height_key q
            then some (height_key db.top_height)
            else lmdb.get q db.tables.metadata)
    metadata_undone r q =
        rolled_metadata_get sodium lmdb map full db.top_height r.replayed_vault q r.t'.metadata
        ∙ rw ((r.off q).metadata, (r.at q).metadata)
            (twice (bytes_eq vault_state_key q) (bytes_eq top_height_key q) (vault_bytes vault)
              (height_key block.header.height) (vault_bytes r.replayed_vault)
              (height_key db.top_height) (lmdb.get q db.tables.metadata))

    -- No call runs out of space, and reading transactions begin. A block of the next height that can be
    -- sent is committed with its images and outputs, and the top is rolled back, both with success. Then the height is what it was, and the hash is that
    -- of the block of that height, or zero where there is none. The block is not found by its
    -- height, and any other height finds what it found; an image, a deposit, an output or a hash in the
    -- index is found exactly if it was found before the commit and is not one of the block's. The
    -- metadata has the height, and the vault that replaying the blocks up to there gives, and else
    -- what it had.
    pub rollback-commit :
        (h : ℕ) (q : List ℕ)
        → h < 2 ^ 64
        → (db''.top_height ≡ db.top_height)
          × (db''.top_hash
              ≡ hash_or_zero sodium lmdb (get_block_by_height sodium lmdb reading db db.top_height))
          × (get_block_by_height sodium lmdb reading db'' h ≡ (
              if block.header.height == h
              then none
              else get_block_by_height sodium lmdb reading db h))
          × (is_key_image_spent sodium lmdb reading db'' q ≡ (
              not (
                contains_key
                  (canonical_images sodium (block_images block))
                  (canonical_key_image sodium q))
              && is_key_image_spent sodium lmdb reading db q))
          × (is_deposit_tx_processed sodium lmdb reading db'' q ≡ (
              not (contains_key (deposit_keys block.deposits) q)
              && is_deposit_tx_processed sodium lmdb reading db q))
          × (lmdb.get q db''.tables.utxos ≡ (
              if contains_key (output_keys (block_outputs block)) q
              then none
              else lmdb.get q db.tables.utxos))
          × (lmdb.get q db''.tables.block_index ≡ (
              if bytes_eq (header_hash sodium block.header) q
              then none
              else lmdb.get q db.tables.block_index))
          × ((replayed : Vault) × (replay_chain sodium lmdb db.tables db.top_height
                  (new_vault 50 50)
                ≡ ok replayed)
              × (lmdb.get q db''.tables.metadata ≡ (
                  if bytes_eq vault_state_key q
                  then some (vault_bytes replayed)
                  else if bytes_eq top_height_key q
                  then some (height_key db.top_height)
                  else lmdb.get q db.tables.metadata)))
    rollback-commit h q lt =
        let r = rolled in
        let canonical = canonical_key_image sodium q in
        let key = height_key block.header.height in
        let opened = r.opened in
        rw (r.after) (
          refl,
          new_top_hash-eq sodium lmdb r.t' db.top_height r.hash r.hashed
              ∙ ap (hash_or_zero sodium lmdb) (
                  blocks_undone r db.top_height (omega (arith, sendable.front.height, next))
                  ∙ rw (other_height db.top_height (omega arith)) (
                      sym (
                        get_block_by_height-open sodium lmdb reading db opened readable q
                          db.top_height))),
          get_block_by_height-open sodium lmdb reading _ refl readable q h
              ∙ blocks_undone r h lt
              ∙ rw (get_block_by_height-open sodium lmdb reading db opened readable q h) refl,
          is_key_image_spent-open sodium lmdb reading _ refl readable q
              ∙ rw (is_key_image_spent-open sodium lmdb reading db opened readable q) (
                  is_some-undone sodium lmdb _ key _ _ _ (r.off canonical).key_images
                    (r.at canonical).key_images),
          is_deposit_tx_processed-open sodium lmdb reading _ refl readable q
              ∙ ap (λ b. not (length q == 0) && b)
                  (is_some-undone sodium lmdb (contains_key (deposit_keys block.deposits) q) key _ _
                    (lmdb.get q db.tables.deposit_txs) (r.off q).deposit_txs (r.at q).deposit_txs)
              ∙ rw (is_deposit_tx_processed-open sodium lmdb reading db opened readable q)
                  (ground arith),
          get-undone sodium lmdb _ _ _ _ (r.off q).utxos
              (λ absent. (r.at q).utxos ∙ last_output-absent q (block_outputs block) _ absent),
          get-undone sodium lmdb (bytes_eq (header_hash sodium block.header) q) _ _
              (lmdb.get q db.tables.block_index) (r.off q).block_index
              (λ absent. (r.at q).block_index ∙ rw absent refl),
          (
            r.replayed_vault,
            sym (
                  replay_chain-same sodium lmdb r.t' db.tables db.top_height (new_vault 50 50)
                    (bytes_below r))
                ∙ r.replayed,
            metadata_undone r q,
          ),
        )
