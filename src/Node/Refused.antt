-- ===== src/Node/Refused.antt =====
-- src/node.cpp: what a node keeps when it refuses a block.
use cryptopeg.Prelude.{◌≡◌, ◌⊎◌, inl, inr, refl, sym, ap}
use cryptopeg.Errors.{Result, ok, err}
use cryptopeg.Block.{Block}
use cryptopeg.Sodium.{Sodium}
use cryptopeg.Lmdb.{Lmdb, Txn}
use cryptopeg.Database.{Database, load_all_utxos}
use cryptopeg.Database.Commit.{commit_block}
use cryptopeg.Database.Committed.{commit_block-atomic}
use cryptopeg.Node.{Refusal, Verdict, refuse, accept, Node, history, recover_state_from_db}
use cryptopeg.Node.Fork.{extends, fork_choice}
use cryptopeg.Node.Apply.{
  Transactions, Effects, Outcome, accepted, rejected, terminated, take_effects, persisted,
  incorporate, check_block, guard, follow, apply_remote_block,
}

module _ (sodium : Sodium) (lmdb : Lmdb) where
  -- A block that is incorporated passed its checks, and was committed.
  pub record Incorporated (committing : Txn) (block : Block) (node node' : Node sodium lmdb)
      (v : Verdict Effects) : Type 0 where
    pub effects : Effects
    pub checked : v ≡ accept effects
    pub db : Database sodium lmdb
    pub committed :
        commit_block sodium lmdb committing block
          (take_effects sodium lmdb block effects node).vault
          effects.new_utxos
          effects.spent_images
          node.db
        ≡ (ok tt, db)
    pub after : node' ≡ record (take_effects sodium lmdb block effects node) { db = db }

  abbrev End : Type 0
  End = Outcome × Node sodium lmdb

  persisted-accepted :
      (node node' : Node sodium lmdb) (r : Result (Unit {0}) × Database sodium lmdb)
      → persisted sodium lmdb node r ≡ (accepted, node')
      → (db : Database sodium lmdb) × (r ≡ (ok tt, db)) × (node' ≡ record node { db = db })
  persisted-accepted node node' (ok _, db) h = (db, refl, sym (ap (λ (e : End). e.1) h))
  persisted-accepted node node' (err e, db) h = cc (ap (λ (e : End). e.0) h)

  pub incorporate-accepted :
      (committing : Txn) (block : Block) (node node' : Node sodium lmdb) (v : Verdict Effects)
      → incorporate sodium lmdb committing block node v ≡ (accepted, node')
      → Incorporated committing block node node' v
  unfolding incorporate take_effects
  incorporate-accepted committing block node node' (refuse r) h = cc (ap (λ (e : End). e.0) h)
  incorporate-accepted committing block node node' (accept e) h =
      let (db, committed, after) =
        persisted-accepted (take_effects sodium lmdb block e node) node' _ h in
      record { effects = e; checked = refl; db = db; committed = committed; after = after }

  pub guard-accepted :
      (reading : Txn) (end : End) (node' : Node sodium lmdb)
      → guard sodium lmdb reading end ≡ (accepted, node')
      → end ≡ (accepted, node')
  guard-accepted reading (accepted, node) node' h = h
  guard-accepted reading (rejected r, node) node' h = cc (ap (λ (e : End). e.0) h)
  guard-accepted reading (terminated, node) node' h = cc (ap (λ (e : End). e.0) h)

  -- A block that is not accepted is refused, and the database is what it was.
  abbrev Refuses : Node sodium lmdb → End → Type 0
  Refuses node (outcome, node') =
      (outcome ≡ accepted) ⊎ ((r : Refusal) × (outcome ≡ rejected r) × (node'.db ≡ node.db))

  persisted-Refuses :
      (node : Node sodium lmdb) (r : Result (Unit {0}) × Database sodium lmdb)
      → (r.0 ≡ ok tt) ⊎ (r.1 ≡ node.db)
      → Refuses node (persisted sodium lmdb node r)
  persisted-Refuses node (ok _, db) kept = inl refl
  persisted-Refuses node (err e, db) (inl h) = cc (h)
  persisted-Refuses node (err e, db) (inr h) = inr (Refusal.commit_failed, refl, h)

  incorporate-Refuses :
      (committing : Txn) (block : Block) (node : Node sodium lmdb) (v : Verdict Effects)
      → Refuses node (incorporate sodium lmdb committing block node v)
  unfolding incorporate take_effects
  incorporate-Refuses committing block node (refuse r) = inr (r, refl, refl)
  incorporate-Refuses committing block node (accept e) =
      persisted-Refuses (take_effects sodium lmdb block e node) _
        (elim (commit_block-atomic sodium lmdb committing block
          (take_effects sodium lmdb block e node).vault e.new_utxos e.spent_images node.db) [
            | inl (done, _) ↦ inl done
            | inr (_, kept) ↦ inr kept
          ])

  -- The end of the method where there is no rollback.
  abbrev Keeps : Txn → Node sodium lmdb → End → Type 0
  Keeps reading node (outcome, node') =
      (outcome ≡ accepted)
      ⊎ ((r : Refusal) × (outcome ≡ rejected r)
          × (node'.db ≡ node.db)
          × (node'.utxo_pool ≡ load_all_utxos sodium lmdb reading node.db)
          × (node'.tx_history ≡ history sodium lmdb reading node.db node.db.top_height))

  guard-Keeps :
      (reading : Txn) (node : Node sodium lmdb) (end : End)
      → Refuses node end
      → Keeps reading node (guard sodium lmdb reading end)
  unfolding recover_state_from_db
  guard-Keeps reading node (accepted, node') k = inl refl
  guard-Keeps reading node (rejected r, node') (inl h) = cc (h)
  guard-Keeps reading node (rejected r, node') (inr (s, e, kept)) = inr (
    r,
    refl,
    kept,
    ap (load_all_utxos sodium lmdb reading) kept,
    ap (λ (db : Database sodium lmdb). history sodium lmdb reading db db.top_height) kept,
  )
  guard-Keeps reading node (terminated, node') (inl h) = cc (h)
  guard-Keeps reading node (terminated, node') (inr (s, e, kept)) = cc (e)

  -- A block that does not compete with the top is accepted, or else it is refused, the database is what
  -- it was, and the outputs and the history in memory are those of the database.
  pub apply_remote_block-refused :
      (txns : Transactions) (block : Block) (node : Node sodium lmdb)
      → fork_choice sodium lmdb txns.reading block node ≡ extends
      → let (outcome, node') = apply_remote_block sodium lmdb txns block node in
        (outcome ≡ accepted)
        ⊎ ((r : Refusal) × (outcome ≡ rejected r)
            × (node'.db ≡ node.db)
            × (node'.utxo_pool ≡ load_all_utxos sodium lmdb txns.reading node.db)
            × (node'.tx_history ≡ history sodium lmdb txns.reading node.db node.db.top_height))
  unfolding apply_remote_block follow
  apply_remote_block-refused txns block node e = rw e (
      guard-Keeps txns.reading node _ (
        incorporate-Refuses txns.committing block node
          (check_block sodium lmdb txns.reading node block)))
