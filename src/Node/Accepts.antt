-- ===== src/Node/Accepts.antt =====
-- src/node.cpp: a block that is accepted was checked and committed.
use cryptopeg.Prelude.{◌≡◌, ◌⊎◌, inl, inr, refl, sym, ap, Bool, true, false}
use cryptopeg.Block.{Block}
use cryptopeg.Sodium.{Sodium}
use cryptopeg.Lmdb.{Lmdb, Txn}
use cryptopeg.Database.{Database}
use cryptopeg.Database.Rollback.{rollback_top_block}
use cryptopeg.Errors.{Result, ok, err}
use cryptopeg.Vault.{Vault}
use cryptopeg.Node.{Refusal, Node, recover_state_from_db}
use cryptopeg.Node.Fork.{Fork, extends, same, refused, replaces, fork_choice}
use cryptopeg.Node.Apply.{
  Transactions, Outcome, accepted, rejected, terminated, restored, guard_reorg, reorganize,
  incorporate, check_block, follow, apply_remote_block,
}
use cryptopeg.Node.Refused.{Incorporated, incorporate-accepted, guard-accepted}

module _ (sodium : Sodium) (lmdb : Lmdb) where
  pub apply_remote_block-Incorporated :
      (txns : Transactions) (block : Block) (node node' : Node sodium lmdb)
      → fork_choice sodium lmdb txns.reading block node ≡ extends
      → apply_remote_block sodium lmdb txns block node ≡ (accepted, node')
      → Incorporated sodium lmdb txns.committing block node node'
          (check_block sodium lmdb txns.reading node block)
  unfolding apply_remote_block follow
  apply_remote_block-Incorporated txns block node node' e h =
      incorporate-accepted sodium lmdb txns.committing block node node' _
        (guard-accepted sodium lmdb txns.reading _ node' (rw e at h))

  -- The node that a block is checked on: where it replaces the top, what is recovered after the
  -- rollback of the top, and else the node as it is.
  unfoldable pub checked_on : Transactions → Node sodium lmdb → Fork → Node sodium lmdb
  checked_on txns node extends = node
  checked_on txns node same = node
  checked_on txns node (refused r) = node
  checked_on txns node (replaces local) =
      recover_state_from_db sodium lmdb txns.reading
        (record node { db = (rollback_top_block sodium lmdb txns.rolling node.db).1 })

  abbrev End : Type 0
  End = Outcome × Node sodium lmdb

  -- A restored chain is no success.
  restored-accepted :
      (reading : Txn) (r : Refusal) (node node' : Node sodium lmdb)
      (end : Result (Unit {0}) × Database sodium lmdb)
      → restored sodium lmdb reading r node end ≡ (accepted, node')
      → ⊥
  restored-accepted reading r node node' (ok _, db) h = cc (ap (λ (e : End). e.0) h)
  restored-accepted reading r node node' (err e, db) h = cc (ap (λ (e : End). e.0) h)

  guard_reorg-accepted :
      (txns : Transactions) (local : Block) (saved : Vault) (end : End) (node' : Node sodium lmdb)
      → guard_reorg sodium lmdb txns local saved end ≡ (accepted, node')
      → end ≡ (accepted, node')
  guard_reorg-accepted txns local saved (accepted, node) node' h = h
  guard_reorg-accepted txns local saved (rejected r, node) node' h =
      absurd (restored-accepted txns.reading r node node' _ h)
  guard_reorg-accepted txns local saved (terminated, node) node' h = cc (ap (λ (e : End). e.0) h)

  reorganize-accepted :
      (txns : Transactions) (block local : Block) (node node' : Node sodium lmdb)
      (rolled : Bool × Database sodium lmdb)
      → reorganize sodium lmdb txns block local node rolled ≡ (accepted, node')
      → let lowered : Node sodium lmdb =
          recover_state_from_db sodium lmdb txns.reading (record node { db = rolled.1 }) in
        incorporate sodium lmdb txns.committing block lowered
          (check_block sodium lmdb txns.reading lowered block)
        ≡ (accepted, node')
  reorganize-accepted txns block local node node' (false, db) h = cc (ap (λ (e : End). e.0) h)
  reorganize-accepted txns block local node node' (true, db) h =
      guard_reorg-accepted txns local node.vault _ node' h

  -- How a block comes to be accepted, by the choice that was made.
  abbrev pub Accepted : Transactions → Block → Node sodium lmdb → Node sodium lmdb → Fork → Type 0
  Accepted txns block node node' f =
      ((f ≡ same) × (node' ≡ node))
      ⊎ Incorporated sodium lmdb txns.committing block (checked_on txns node f) node'
          (check_block sodium lmdb txns.reading (checked_on txns node f) block)

  follow-Accepted :
      (txns : Transactions) (block : Block) (node node' : Node sodium lmdb) (f : Fork)
      → follow sodium lmdb txns block node f ≡ (accepted, node')
      → Accepted txns block node node' f
  unfolding follow checked_on
  follow-Accepted txns block node node' extends h = inr (
      incorporate-accepted sodium lmdb txns.committing block node node' _
        (guard-accepted sodium lmdb txns.reading _ node' h))
  follow-Accepted txns block node node' same h = inl (refl, sym (ap (λ (e : End). e.1) h))
  follow-Accepted txns block node node' (refused r) h = cc (ap (λ (e : End). e.0) h)
  follow-Accepted txns block node node' (replaces local) h = inr (
      incorporate-accepted sodium lmdb txns.committing block _ node' _
        (reorganize-accepted txns block local node node' _ h))

  -- A block that is accepted is the top already, or else it passed the checks of the node that it is
  -- checked on, and was committed there.
  pub apply_remote_block-Accepted :
      (txns : Transactions) (block : Block) (node node' : Node sodium lmdb)
      → apply_remote_block sodium lmdb txns block node ≡ (accepted, node')
      → Accepted txns block node node' (fork_choice sodium lmdb txns.reading block node)
  unfolding apply_remote_block
  apply_remote_block-Accepted txns block node node' h = follow-Accepted txns block node node' _ h
