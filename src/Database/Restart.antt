-- ===== src/Database/Restart.antt =====
-- src/blockchain_db.cpp: what a node that starts reads of the last commit.
use cryptopeg.Prelude.{
  ◌<◌, ◌^◌, ◌≡◌, refl, ◌∙◌, arith, Bool, ◌&&◌, true, Bool-cases, Option-cases, inl, inr, some,
  bytes_eq_refl,
}
use cryptopeg.Vault.{Vault, audit_solvency, restore_state}
use cryptopeg.Block.{Block}
use cryptopeg.Sodium.{Sodium}
use cryptopeg.Lmdb.{Lmdb, IsMap, Txn}
use cryptopeg.Database.{Database, vault_bytes, vault_state_key, load_vault_state, save_vault_state}
use cryptopeg.Database.Keys.{read_amounts-vault_bytes}

and_left : (a b : Bool) → (a && b) ≡ true → a ≡ true
and_left a b h = ground arith

module _ (sodium : Sodium) (lmdb : Lmdb) where
  loaded :
      (reading : Txn) (db : Database sodium lmdb) (vault v : Vault)
      → db.is_open ≡ true
      → reading.begins ≡ true
      → lmdb.get vault_state_key db.tables.metadata ≡ some (vault_bytes vault)
      → vault.total_collateral < 2 ^ 64
      → vault.circulating_supply < 2 ^ 64
      → vault.fee_pool_reserve < 2 ^ 64
      → load_vault_state sodium lmdb reading db v ≡ (
        audit_solvency vault,
        record v {
          total_collateral = vault.total_collateral;
          circulating_supply = vault.circulating_supply;
          fee_pool_reserve = vault.fee_pool_reserve;
        },
      )
  unfolding load_vault_state restore_state audit_solvency
  loaded reading db vault v opened readable found hc hs hf =
      ground (arith, read_amounts-vault_bytes vault hc hs hf)

  -- What it takes for a vault to be saved.
  record Saved (writing : Txn) (db db' : Database sodium lmdb) (vault : Vault) : Type 0 where
    opened : db.is_open ≡ true
    metadata : lmdb.Table
    written : lmdb.put vault_state_key (vault_bytes vault) db.tables.metadata ≡ some metadata
    after : db' ≡ record db { tables = record db.tables { metadata = metadata } }

  save_vault_state-Saved :
      (writing : Txn) (db : Database sodium lmdb) (vault : Vault)
      → (save_vault_state sodium lmdb writing db vault).0 ≡ true
      → Saved writing db (save_vault_state sodium lmdb writing db vault).1 vault
  unfolding save_vault_state
  save_vault_state-Saved writing db vault h = elim (Bool-cases (db.is_open && writing.begins)) [
    | inr shut ↦ cc (rw (save_vault_state, shut) at h)
    | inl opened ↦
        elim (Option-cases (lmdb.put vault_state_key (vault_bytes vault) db.tables.metadata)) [
          | inl failed ↦ cc (rw (save_vault_state, opened, failed) at h)
          | inr (metadata, written) ↦ elim (Bool-cases writing.commits) [
            | inr lost ↦ cc (rw (save_vault_state, opened, written, lost) at h)
            | inl kept ↦ record {
              opened = and_left db.is_open writing.begins opened;
              metadata = metadata;
              written = written;
              after = rw (save_vault_state, opened, written, kept) refl;
            }
          ]
        ]
  ]

  -- The amounts of a vault that was saved are loaded.
  pub load_vault_state-save_vault_state :
      (map : IsMap lmdb) (writing reading : Txn) (db : Database sodium lmdb) (vault v : Vault)
      → reading.begins ≡ true
      → (save_vault_state sodium lmdb writing db vault).0 ≡ true
      → vault.total_collateral < 2 ^ 64
      → vault.circulating_supply < 2 ^ 64
      → vault.fee_pool_reserve < 2 ^ 64
      → load_vault_state sodium lmdb reading (save_vault_state sodium lmdb writing db vault).1 v ≡ (
        audit_solvency vault,
        record v {
          total_collateral = vault.total_collateral;
          circulating_supply = vault.circulating_supply;
          fee_pool_reserve = vault.fee_pool_reserve;
        },
      )
  load_vault_state-save_vault_state map writing reading db vault v readable saved hc hs hf =
      let s = save_vault_state-Saved writing db vault saved in
      rw (s.after) (
        loaded reading _ vault v s.opened readable
          (map.get_put vault_state_key (vault_bytes vault) vault_state_key db.tables.metadata
              s.metadata s.written
            ∙ rw (bytes_eq_refl vault_state_key) refl)
          hc hs hf)
