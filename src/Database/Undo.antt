-- ===== src/Database/Undo.antt =====
-- src/blockchain_db.cpp: what a rollback that succeeded did.
use cryptopeg.Prelude.{
  ℕ, ◌-◌, ◌≡◌, refl, sym, ap, arith, Bool, true, false, Option, none, some, List, if◌then◌else◌,
  Bool-cases, inl, inr,
}
use cryptopeg.Errors.{Result, ok, err}
use cryptopeg.Vault.{Vault, new_vault}
use cryptopeg.Sodium.{Sodium}
use cryptopeg.Lmdb.{Lmdb, Txn}
use cryptopeg.Database.{
  Tables, Database, hash_or_zero, block_of, height_key, vault_bytes, top_height_key,
  vault_state_key,
}
use cryptopeg.Database.Lookup.{>>=-ok}
use cryptopeg.Database.Rollback.{
  or_same, take_off, new_top_hash, replay_chain, write_rollback, commit_rollback, lower,
  without_top, rollback_top_block,
}

module _ (sodium : Sodium) (lmdb : Lmdb) where
  abbrev Outcome : Type 0
  Outcome = Bool × Database sodium lmdb

  -- The metadata with a height and a vault.
  abbrev pub rolled_metadata : ℕ → Vault → lmdb.Table → lmdb.Table
  rolled_metadata height vault t =
      let t₁ = or_same sodium lmdb (lmdb.put top_height_key (height_key height) t) t in
      or_same sodium lmdb (lmdb.put vault_state_key (vault_bytes vault) t₁) t₁

  -- A rollback that succeeded: the tables without the block, the hash of the new top, and the vault of
  -- the blocks up to there.
  pub record Undo (undoing : Txn) (db db' : Database sodium lmdb) : Type 0 where
    pub tables : Tables sodium lmdb
    pub hash : List ℕ
    pub vault : Vault
    pub taken : take_off sodium lmdb db.tables db.top_height ≡ some tables
    pub hashed : new_top_hash sodium lmdb tables (db.top_height - 1) ≡ ok hash
    pub replayed : replay_chain sodium lmdb tables (db.top_height - 1) (new_vault 50 50) ≡ ok vault
    pub after : db' ≡ record db {
      top_height = db.top_height - 1;
      top_hash = hash;
      tables = record tables {
        metadata = rolled_metadata (db.top_height - 1) vault tables.metadata;
      };
    }

  ended :
      (undoing : Txn) (db db' : Database sodium lmdb) (r : Result (Tables sodium lmdb))
      → commit_rollback sodium lmdb undoing db r ≡ (true, db')
      → (t : Tables sodium lmdb) × (r ≡ ok t) × (db' ≡ record db { tables = t })
  ended undoing db db' (err e) h = cc (ap (λ (p : Outcome). p.0) h)
  ended undoing db db' (ok t) h = elim (Bool-cases undoing.commits) [
    | inl c ↦ (t, refl, sym (ap (λ (p : Outcome). p.1) (rw c at h)))
    | inr c ↦ cc (ap (λ (p : Outcome). p.0) (rw c at h))
  ]

  written_metadata :
      (t t' : Tables sodium lmdb) (height : ℕ)
      → write_rollback sodium lmdb t height ≡ ok t'
      → (vault : Vault) × (replay_chain sodium lmdb t height (new_vault 50 50) ≡ ok vault)
        × (t' ≡ record t { metadata = rolled_metadata height vault t.metadata })
  unfolding write_rollback
  written_metadata t t' height h =
      let (vault, replayed, done) =
        >>=-ok (replay_chain sodium lmdb t height (new_vault 50 50)) _ t' h in
      (vault, replayed, sym (ok_injective done))
    where
      ok_injective : {x y : Tables sodium lmdb} → ok x ≡ ok y → x ≡ y
      ok_injective e = cc (e)

  lowered :
      (undoing : Txn) (db db' : Database sodium lmdb) (t : Tables sodium lmdb) (r : Result (List ℕ))
      → lower sodium lmdb undoing db t r ≡ (true, db')
      → (hash : List ℕ) × (vault : Vault) × (r ≡ ok hash)
        × (replay_chain sodium lmdb t (db.top_height - 1) (new_vault 50 50) ≡ ok vault)
        × (db' ≡ record db {
          top_height = db.top_height - 1;
          top_hash = hash;
          tables = record t { metadata = rolled_metadata (db.top_height - 1) vault t.metadata };
        })
  lowered undoing db db' t (err e) h = cc (ap (λ (p : Outcome). p.0) h)
  lowered undoing db db' t (ok hash) h =
      let (t', written, after) =
        ended undoing _ db' (write_rollback sodium lmdb t (db.top_height - 1)) h in
      let (vault, replayed, same) = written_metadata t t' (db.top_height - 1) written in
      (hash, vault, refl, replayed, rw (after, same) refl)

  lowered_without_top :
      (undoing : Txn) (db db' : Database sodium lmdb) (o : Option (Tables sodium lmdb))
      → o ≡ take_off sodium lmdb db.tables db.top_height
      → without_top sodium lmdb undoing db o ≡ (true, db')
      → Undo undoing db db'
  lowered_without_top undoing db db' none e h = cc (ap (λ (p : Outcome). p.0) h)
  lowered_without_top undoing db db' (some t) e h =
      let (hash, vault, hashed, replayed, after) =
        lowered undoing db db' t (new_top_hash sodium lmdb t (db.top_height - 1)) h in
      record {
        tables = t;
        hash = hash;
        vault = vault;
        replayed = replayed;
        taken = sym e;
        hashed = hashed;
        after = after;
      }

  not_stopped :
      (stop : Bool) (db db' : Database sodium lmdb) (rest : Outcome)
      → (if stop then (false, db) else rest) ≡ (true, db')
      → rest ≡ (true, db')
  not_stopped true db db' rest h = cc (ap (λ (p : Outcome). p.0) h)
  not_stopped false db db' rest h = h

  pub rollback_top_block-Undo :
      (undoing : Txn) (db db' : Database sodium lmdb)
      → rollback_top_block sodium lmdb undoing db ≡ (true, db')
      → Undo undoing db db'
  unfolding rollback_top_block
  rollback_top_block-Undo undoing db db' h =
      lowered_without_top undoing db db' _ refl (not_stopped _ db db' _ h)

  -- The new top's hash is that of the block there, or zero.
  pub new_top_hash-eq :
      (t : Tables sodium lmdb) (height : ℕ) (hash : List ℕ)
      → new_top_hash sodium lmdb t height ≡ ok hash
      → hash
        ≡ hash_or_zero sodium lmdb (block_of sodium lmdb (lmdb.get (height_key height) t.blocks))
  unfolding new_top_hash
  new_top_hash-eq t height hash h = ground arith
