-- ===== src/Database/Committed.antt =====
-- src/blockchain_db.cpp: what the readers find after `commit_block`, now and after a restart.
use mathlib.Core.List.{append-nil}
use cryptopeg.Prelude.{
  ℕ, ◌<◌, ◌^◌, ◌≡◌, ◌≢◌, ◌⊎◌, refl, ap, ◌∙◌, arith, Bool, true, false, ◌&&◌, ◌||◌, not, ◌==◌,
  Option, some, List, [], ◌∷◌, length, if◌then◌else◌, bytes_eq, bytes_eq_refl, bytes_eq_iff,
  Bool-cases, Option-cases, inl, inr,
}
use cryptopeg.Errors.{ok}
use cryptopeg.Vault.{DepositReceipt, Vault}
use cryptopeg.Block.{OneTimeOutput, Block}
use cryptopeg.Block.Encode.{serialize}
use cryptopeg.Block.Decode.{deserialize}
use cryptopeg.Block.Format.{IsSendable}
use cryptopeg.Block.WholeTrip.{deserialize-serialize}
use cryptopeg.Quorum.{contains_key, header_hash}
use cryptopeg.KeyImages.{canonical_key_image}
use cryptopeg.Sodium.{Sodium}
use cryptopeg.Lmdb.{Lmdb, IsMap, Txn}
use cryptopeg.Database.{
  Tables, Database, is_some, block_of, height_key, get_block_by_height, get_block_by_hash,
  is_key_image_spent, is_deposit_tx_processed,
}
use cryptopeg.Database.Commit.{commit_block}
use cryptopeg.Database.Rollback.{deposit_keys}
use cryptopeg.Database.Keys.{bytes_eq-height_key}
use cryptopeg.Database.Lookup.{canonical_images}
use cryptopeg.Database.Success.{
  commit_block-Success, get_block_by_height-open, is_key_image_spent-open,
  is_deposit_tx_processed-open,
}
use cryptopeg.Database.Entries.{length_eight, is_entry, by_entry, get_block_by_hash-by_entry}
use cryptopeg.Database.Written.{Written, write_block-Written}

module _ (sodium : Sodium) (lmdb : Lmdb) where
  -- A commit either succeeds, on an open database and in a transaction that begins and commits, or
  -- fails and leaves the database as it was, in memory and in the tables.
  pub commit_block-atomic :
      (txn : Txn) (block : Block) (vault : Vault) (new_utxos : List OneTimeOutput)
      (spent_images : List (List ℕ)) (db : Database sodium lmdb)
      → let (result, db') = commit_block sodium lmdb txn block vault new_utxos spent_images db in
        ((result ≡ ok tt) × (db.is_open && (txn.begins && txn.commits) ≡ true))
        ⊎ ((result ≢ ok tt) × (db' ≡ db))
  unfolding commit_block
  commit_block-atomic txn block vault new_utxos spent_images db = ground arith

  -- The bytes that `serialize` gave are read as the block again.
  pub deserialize-bytes :
      (block : Block) (bytes : List ℕ)
      → IsSendable sodium.is_valid_point block
      → serialize block ≡ ok bytes
      → deserialize sodium.is_valid_point bytes ≡ ok block
  deserialize-bytes block bytes sendable e =
      let (written, e', read) = deserialize-serialize sodium.is_valid_point block [] sendable in
      let same : written ≡ bytes = cc (e, e') in rw (append-nil, same) at read

  pub block_of-serialize :
      (block : Block) (bytes : List ℕ)
      → IsSendable sodium.is_valid_point block
      → serialize block ≡ ok bytes
      → block_of sodium lmdb (some bytes) ≡ some block
  block_of-serialize block bytes sendable e =
      rw (deserialize-bytes block bytes sendable e, block_of) refl

  contains_key-deposit_keys :
      (deps : List DepositReceipt) → contains_key (deposit_keys deps) [] ≡ false
  unfolding contains_key deposit_keys bytes_eq
  contains_key-deposit_keys [] = refl
  contains_key-deposit_keys (dep ∷ deps) = elim (Bool-cases (length dep.tx_hash == 0)) [
    | inl empty ↦ rw empty (contains_key-deposit_keys deps)
    | inr full ↦
        rw full (ground (arith, contains_key-deposit_keys deps, bytes_eq_iff dep.tx_hash []))
  ]

  -- The readers of a value that a test chooses.
  block_of-if :
      (c : Bool) (block : Block) (bytes : List ℕ) (before : Option (List ℕ))
      → block_of sodium lmdb (some bytes) ≡ some block
      → block_of sodium lmdb (if c then some bytes else before)
        ≡ (if c then some block else block_of sodium lmdb before)
  block_of-if true block bytes before e = e
  block_of-if false block bytes before e = refl

  is_some-if :
      (c : Bool) (v : List ℕ) (before : Option (List ℕ))
      → is_some (if c then some v else before) ≡ (c || is_some before)
  is_some-if true v before = refl
  is_some-if false v before = refl

  is_some-if_nonempty :
      (c : Bool) (q v : List ℕ) (before : Option (List ℕ))
      → (q ≡ [] → c ≡ false)
      → (not (length q == 0) && is_some (if c then some v else before))
        ≡ (c || (not (length q == 0) && is_some before))
  is_some-if_nonempty true [] v before none_empty = cc (none_empty refl)
  is_some-if_nonempty true (x ∷ q) v before none_empty = ground arith
  is_some-if_nonempty false q v before none_empty = refl

  module _ (map : IsMap lmdb) (txn reading : Txn) (block : Block) (vault : Vault)
      (new_utxos : List OneTimeOutput) (spent_images : List (List ℕ))
      (db db' : Database sodium lmdb) (sendable : IsSendable sodium.is_valid_point block)
      (readable : reading.begins ≡ true)
      (done : commit_block sodium lmdb txn block vault new_utxos spent_images db
        ≡ (ok tt, db')) where
    -- A hash that is not the block's is looked up by its entry, which may be the block's height.
    other_hash :
        (q : List ℕ) (tables : Tables sodium lmdb)
        → ((k : List ℕ) → Written sodium lmdb block vault new_utxos spent_images db.tables tables k)
        → bytes_eq (header_hash sodium block.header) q ≡ false
        → by_entry sodium lmdb tables (lmdb.get q tables.block_index) ≡ (
            if is_entry (height_key block.header.height) (lmdb.get q db.tables.block_index)
            then some block
            else by_entry sodium lmdb db.tables (lmdb.get q db.tables.block_index))
    unfolding by_entry
    other_hash q tables at other =
        let key = height_key block.header.height in
        rw ((at q).block_index, other)
          (elim (Option-cases (lmdb.get q db.tables.block_index)) [
            | inl absent ↦ rw absent refl
            | inr (b, present) ↦ rw present (elim (Bool-cases (bytes_eq key b)) [
              | inl same ↦
                  let eight_bytes : (length b == 8) ≡ true =
                    rw (← (bytes_eq_iff key b).0 same) (length_eight block.header.height) in
                  rw (same, eight_bytes, (at b).blocks)
                    (rw same (block_of-serialize block (at b).bytes sendable (at b).serialized))
              | inr apart ↦ rw (apart, (at b).blocks) (rw apart refl)
            ])
          ])

    own_hash :
        (q : List ℕ) (tables : Tables sodium lmdb)
        → ((k : List ℕ) → Written sodium lmdb block vault new_utxos spent_images db.tables tables k)
        → bytes_eq (header_hash sodium block.header) q ≡ true
        → by_entry sodium lmdb tables (lmdb.get q tables.block_index) ≡ some block
    unfolding by_entry
    own_hash q tables at own =
        let key = height_key block.header.height in
        rw ((at q).block_index, own, length_eight block.header.height, (at key).blocks)
          (rw (bytes_eq_refl key)
            (block_of-serialize block (at key).bytes sendable (at key).serialized))

    -- After a commit that succeeded, of a block that can be sent, where reading transactions begin: the
    -- top is the block's. The block is found by its height, and any
    -- other height below 2^64 finds what it found. The block is found by its hash, and by any other
    -- hash that the index led to the block's height; any hash else finds what it found. An image or a
    -- deposit is found exactly if it came with the block or was found before.
    pub commit_block_lem :
        (h : ℕ) (q : List ℕ)
        → h < 2 ^ 64
        → (db'.top_height ≡ block.header.height)
          × (db'.top_hash ≡ header_hash sodium block.header)
          × (get_block_by_height sodium lmdb reading db' h ≡ (
              if block.header.height == h
              then some block
              else get_block_by_height sodium lmdb reading db h))
          × (get_block_by_hash sodium lmdb reading db' q ≡ (
              if bytes_eq (header_hash sodium block.header) q
                || is_entry (height_key block.header.height) (lmdb.get q db.tables.block_index)
              then some block
              else get_block_by_hash sodium lmdb reading db q))
          × (is_key_image_spent sodium lmdb reading db' q ≡ (
              contains_key (canonical_images sodium spent_images) (canonical_key_image sodium q)
              || is_key_image_spent sodium lmdb reading db q))
          × (is_deposit_tx_processed sodium lmdb reading db' q ≡ (
              contains_key (deposit_keys block.deposits) q
              || is_deposit_tx_processed sodium lmdb reading db q))
    commit_block_lem h q lt =
        let s =
          commit_block-Success sodium lmdb txn block vault new_utxos spent_images db db' done in
        let t = s.tables in
        let canonical = canonical_key_image sodium q in
        let key = height_key block.header.height in
        let at = λ (k : List ℕ).
          write_block-Written sodium lmdb map block vault new_utxos spent_images db.tables t k
            s.written in
        let stored =
          λ (k : List ℕ). block_of-serialize block (at k).bytes sendable (at k).serialized in
        rw (s.after) (
          refl,
          refl,
          get_block_by_height-open sodium lmdb reading _ s.opened readable q h
              ∙ ap (block_of sodium lmdb) (at (height_key h)).blocks
              ∙ rw
                  (
                    bytes_eq-height_key block.header.height h sendable.front.height lt,
                    get_block_by_height-open sodium lmdb reading db s.opened readable q h,
                  )
                  (block_of-if (block.header.height == h) block (at (height_key h)).bytes _
                    (stored (height_key h))),
          get_block_by_hash-by_entry sodium lmdb reading _ q s.opened readable
              ∙ elim (Bool-cases (bytes_eq (header_hash sodium block.header) q)) [
                | inl own ↦ rw own (own_hash q t at own)
                | inr other ↦
                    rw
                      (other, get_block_by_hash-by_entry sodium lmdb reading db q s.opened readable)
                      (other_hash q t at other)
              ],
          is_key_image_spent-open sodium lmdb reading _ s.opened readable q
              ∙ ap is_some (at canonical).key_images
              ∙ rw (is_key_image_spent-open sodium lmdb reading db s.opened readable q)
                  (is_some-if _ key _),
          is_deposit_tx_processed-open sodium lmdb reading _ s.opened readable q
              ∙ ap (λ o. not (length q == 0) && is_some o) (at q).deposit_txs
              ∙ rw (is_deposit_tx_processed-open sodium lmdb reading db s.opened readable q) (
                  is_some-if_nonempty _ q key _
                    (λ e. rw e (contains_key-deposit_keys block.deposits))),
        )
