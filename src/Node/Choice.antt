-- ===== src/Node/Choice.antt =====
-- src/node.cpp: two nodes choose the same of two blocks.
use cryptopeg.Prelude.{
  refl, ◌∙◌, ◌<◌, ◌==◌, ◌&&◌, ltb, true, some, if◌then◌else◌, ◌⊎◌, inl, inr, Bool-cases, ℕ, ◌≡◌, ap,
  arith, false, not, List, All, bytes_eq, bytes_eq_iff,
}
use cryptopeg.Hex.{to_hex, from_hex}
use cryptopeg.Hex.RoundTrip.{IsByte, from_hex-to_hex}
use cryptopeg.Block.{Block}
use cryptopeg.Quorum.{header_hash, lex_lt}
use cryptopeg.Quorum.Lex.{lex_asymm, lex_total}
use cryptopeg.Sodium.{Sodium}
use cryptopeg.Lmdb.{Lmdb, Txn}
use cryptopeg.Database.{get_block_by_height}
use cryptopeg.Database.Rollback.{rollback_top_block}
use cryptopeg.Node.{Refusal, Node}
use cryptopeg.Node.Fork.{Fork, preferred, compete, fork_choice}
use cryptopeg.Node.Apply.{Transactions, rejected, reorganize, follow, apply_remote_block}

to_hex_injective :
    (xs ys : List ℕ) → All IsByte xs → All IsByte ys → to_hex xs ≡ to_hex ys → xs ≡ ys
to_hex_injective xs ys hx hy e = cc (ap from_hex e, from_hex-to_hex xs hx, from_hex-to_hex ys hy)

-- Of two texts that are not the same, one is below the other.
lex_lt-not : (xs ys : List ℕ) → (xs ≡ ys → ⊥) → lex_lt xs ys ≡ not (lex_lt ys xs)
lex_lt-not xs ys differ = ground (arith, lex_asymm xs ys, lex_total xs ys)

-- Of two blocks whose hashes are bytes and differ, exactly one is preferred to the other, by the same
-- authorized keys.
preferred_once :
    (sodium : Sodium) (authorized : List (List ℕ)) (a b : Block)
    → All IsByte (header_hash sodium a.header)
    → All IsByte (header_hash sodium b.header)
    → bytes_eq (header_hash sodium a.header) (header_hash sodium b.header) ≡ false
    → preferred sodium authorized a b ≡ not (preferred sodium authorized b a)
unfolding preferred
preferred_once sodium authorized a b ba bb differ = ground (
  arith,
  lex_lt-not (to_hex (header_hash sodium a.header)) (to_hex (header_hash sodium b.header))
      texts_differ,
)
  where
    texts_differ : to_hex (header_hash sodium a.header) ≡ to_hex (header_hash sodium b.header) → ⊥
    texts_differ e =
        let same =
          (bytes_eq_iff (header_hash sodium a.header) (header_hash sodium b.header)).1
            (to_hex_injective _ _ ba bb e) in
        cc (same, differ)

-- The hypotheses under which a block competes with the top of a node.
pub record Competes (sodium : Sodium) (lmdb : Lmdb) (reading : Txn) (remote local : Block)
    (node : Node sodium lmdb) : Type 0 where
  pub top : get_block_by_height sodium lmdb reading node.db node.db.top_height ≡ some local
  pub height : remote.header.height ≡ node.db.top_height
  pub positive : 0 < node.db.top_height
  pub parent : remote.header.prev_block_hash ≡ local.header.prev_block_hash
  pub differs :
      bytes_eq (header_hash sodium remote.header) (header_hash sodium local.header) ≡ false

competing :
    (sodium : Sodium) (lmdb : Lmdb) (reading : Txn) (remote local : Block) (node : Node sodium lmdb)
    → Competes sodium lmdb reading remote local node
    → fork_choice sodium lmdb reading remote node ≡ (
        if preferred sodium node.authorized_validators remote local
        then Fork.replaces local
        else Fork.refused Refusal.local_preferred)
unfolding fork_choice compete
competing sodium lmdb reading remote local node c =
    let level : ((remote.header.height == node.db.top_height) && ltb 0 node.db.top_height) ≡ true =
      ground (arith, c.height, c.positive) in
    let siblings = (bytes_eq_iff remote.header.prev_block_hash _).1 c.parent in
    rw (level, c.top, compete, c.differs, siblings) refl

-- What becomes of a block that competes: its node rolls its own top back for it, or refuses it and is
-- left as it is.
unfoldable pub Reorganizing :
    (sodium : Sodium) (lmdb : Lmdb) → Transactions → Block → Block → Node sodium lmdb → Type 0
Reorganizing sodium lmdb txns remote local node =
    (fork_choice sodium lmdb txns.reading remote node ≡ Fork.replaces local)
    × (apply_remote_block sodium lmdb txns remote node
        ≡ reorganize sodium lmdb txns remote local node
            (rollback_top_block sodium lmdb txns.rolling node.db))

unfoldable pub Refusing :
    (sodium : Sodium) (lmdb : Lmdb) → Transactions → Block → Node sodium lmdb → Type 0
Refusing sodium lmdb txns remote node =
    apply_remote_block sodium lmdb txns remote node ≡ (rejected Refusal.local_preferred, node)

changes_or_keeps :
    (sodium : Sodium) (lmdb : Lmdb) (txns : Transactions) (remote local : Block)
    (node : Node sodium lmdb)
    → Competes sodium lmdb txns.reading remote local node
    → (preferred sodium node.authorized_validators remote local ≡ true
        → Reorganizing sodium lmdb txns remote local node)
      × (preferred sodium node.authorized_validators remote local ≡ false
          → Refusing sodium lmdb txns remote node)
unfolding apply_remote_block follow Reorganizing Refusing
changes_or_keeps sodium lmdb txns remote local node c =
    let choice = competing sodium lmdb txns.reading remote local node c in
    (
      λ wins.
          let replaces : fork_choice sodium lmdb txns.reading remote node ≡ Fork.replaces local =
            choice ∙ rw wins refl in
          (replaces, rw (replaces, follow) refl),
      λ loses.
          let refuses : fork_choice sodium lmdb txns.reading remote node
              ≡ Fork.refused Refusal.local_preferred =
            choice ∙ rw loses refl in
          rw (refuses, follow) refl,
    )

-- Two nodes have the same authorized keys, and each receives the top of the other: a block of the height
-- of its own top, which is above 0, with the parent of its own top and another hash. The hashes are
-- bytes. Then one of the nodes chooses to replace its top, and goes on to roll it back; the other
-- refuses the block that it receives, and its state does not change.
pub apply_remote_block-one_keeps :
    (sodium : Sodium) (lmdb : Lmdb) (txns : Transactions) (a b : Block)
    (node_a node_b : Node sodium lmdb)
    → Competes sodium lmdb txns.reading b a node_a
    → Competes sodium lmdb txns.reading a b node_b
    → node_a.authorized_validators ≡ node_b.authorized_validators
    → All IsByte (header_hash sodium a.header)
    → All IsByte (header_hash sodium b.header)
    → (Reorganizing sodium lmdb txns b a node_a × Refusing sodium lmdb txns a node_b)
      ⊎ (Refusing sodium lmdb txns b node_a × Reorganizing sodium lmdb txns a b node_b)
apply_remote_block-one_keeps sodium lmdb txns a b node_a node_b ca cb keys ba bb =
    let (change_a, keep_a) = changes_or_keeps sodium lmdb txns b a node_a ca in
    let (change_b, keep_b) = changes_or_keeps sodium lmdb txns a b node_b cb in
    let once = preferred_once sodium node_a.authorized_validators b a bb ba ca.differs in
    elim (Bool-cases (preferred sodium node_a.authorized_validators a b)) [
      | inl wins ↦ inr (keep_a (once ∙ rw wins refl), change_b (rw keys at wins))
      | inr loses ↦ inl (change_a (once ∙ rw loses refl), keep_b (rw keys at loses))
    ]
