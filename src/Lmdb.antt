-- ===== src/Lmdb.antt =====
-- The functions of LMDB that src/blockchain_db.cpp calls: parameters of the model. A named table is
-- what a transaction sees of it; a transaction that is aborted leaves the tables as they were.
pub mod Toy
use cryptopeg.Prelude.{ℕ, Bool, true, false, Option, none, some, List, ◌≡◌, if◌then◌else◌, bytes_eq}

pub record Lmdb : Type 1 where
  pub Table : Type 0
  -- `mdb_get`
  pub get : List ℕ → Table → Option (List ℕ)
  -- `mdb_put` with no flags: `none` where it does not return 0
  pub put : List ℕ → List ℕ → Table → Option Table
  -- `mdb_del`: `none` where it does not return 0, as for a key that is not there
  pub del : List ℕ → Table → Option Table
  -- the keys and values that a cursor gives from `MDB_FIRST` on
  pub entries : Table → List (List ℕ × List ℕ)

-- What the sources rely on: a table is a map from keys to values.
pub record IsMap (lmdb : Lmdb) : Type 0 where
  pub get_put :
      (k v q : List ℕ) (t t' : lmdb.Table)
      → lmdb.put k v t ≡ some t'
      → lmdb.get q t' ≡ (if bytes_eq k q then some v else lmdb.get q t)
  pub get_del :
      (k q : List ℕ) (t t' : lmdb.Table)
      → lmdb.del k t ≡ some t'
      → lmdb.get q t' ≡ (if bytes_eq k q then none else lmdb.get q t)

-- The condition that no memory, space or map size runs out: every `mdb_put` succeeds, and `mdb_del`
-- fails only for a key that is not there.
pub record NeverFull (lmdb : Lmdb) : Type 0 where
  pub put_ok : (k v : List ℕ) (t : lmdb.Table) → (t' : lmdb.Table) × (lmdb.put k v t ≡ some t')
  pub del_absent : (k : List ℕ) (t : lmdb.Table) → lmdb.del k t ≡ none → lmdb.get k t ≡ none

-- How the calls that begin and end a transaction return, and the one that opens a cursor in it.
pub record Txn : Type 0 where
  -- `mdb_txn_begin` returns 0
  pub begins : Bool
  -- `mdb_txn_commit` returns 0
  pub commits : Bool
  -- `mdb_cursor_open` returns 0
  pub opens : Bool
