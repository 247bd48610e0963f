-- ===== src/Node/Spending.antt =====
-- src/node.cpp: no image is spent twice.
use cryptopeg.Prelude.{
  ◌∷◌, ◌⊎◌, inl, inr, arith, Bool-cases, bytes_eq, bytes_eq_iff, bytes_eq_refl, ◌∙◌, ℕ, ◌≡◌, refl,
  ap, true, false, ◌||◌, some, List, [], All,
}
use cryptopeg.Block.{Block}
use cryptopeg.Block.Format.{IsSendable}
use cryptopeg.Quorum.{contains_key, header_hash}
use cryptopeg.Ring.{distinct_keys}
use cryptopeg.Hex.{to_hex}
use cryptopeg.KeyImages.{
  KeyImageLedger, finds, insert, canonical_key_image, register_key_image, is_spent,
}
use cryptopeg.Sodium.{Sodium}
use cryptopeg.Lmdb.{Lmdb, IsMap}
use cryptopeg.Database.{is_key_image_spent, get_block_by_hash}
use cryptopeg.Database.Committed.{commit_block_lem}
use cryptopeg.Database.Lookup.{canonical_images}
use cryptopeg.Database.Contents.{block_images}
use cryptopeg.Node.{Node}
use cryptopeg.Node.Fork.{Fork, fork_choice}
use cryptopeg.Node.Transfers.{spent_already}
use cryptopeg.Node.Apply.{
  Transactions, accepted, register_all, check_block, take_effects, apply_remote_block,
}
use cryptopeg.Node.Fresh.{Fresh-unspent, Fresh-distinct}
use cryptopeg.Node.Refused.{Incorporated}
use cryptopeg.Node.Checks.{check_block-Checked}
use cryptopeg.Node.Accepts.{checked_on, apply_remote_block-Accepted}

-- The texts under which images are registered.
unfoldable canonical_texts : Sodium → List (List ℕ) → List (List ℕ)
canonical_texts sodium [] = []
canonical_texts sodium (image ∷ images) =
    to_hex (canonical_key_image sodium image) ∷ canonical_texts sodium images

contains_key_found :
    (ks : List (List ℕ)) (j k : List ℕ) → j ≡ k → contains_key ks j ≡ contains_key ks k
contains_key_found ks j k e = ap (contains_key ks) e

module _ (sodium : Sodium) where
  register_text :
      (image q : List ℕ) (ledger : KeyImageLedger)
      → is_spent sodium q (register_key_image sodium image ledger).1 ≡ (
          bytes_eq
            (to_hex (canonical_key_image sodium image))
            (to_hex (canonical_key_image sodium q))
          || is_spent sodium q ledger)
  unfolding register_key_image is_spent insert finds contains_key
  register_text image q ledger =
      let i = to_hex (canonical_key_image sodium image) in
      let o = to_hex (canonical_key_image sodium q) in
      elim (Bool-cases (contains_key ledger.spent_images i)) [
        | inl old ↦
            rw old (ground (arith, bytes_eq_iff i o, contains_key_found ledger.spent_images i o))
        | inr new ↦ rw new (ground arith)
      ]

  register_all-texts :
      (images : List (List ℕ)) (q : List ℕ) (ledger : KeyImageLedger)
      → is_spent sodium q (register_all sodium images ledger) ≡ (
          contains_key (canonical_texts sodium images) (to_hex (canonical_key_image sodium q))
          || is_spent sodium q ledger)
  unfolding register_all canonical_texts contains_key
  register_all-texts [] q ledger = refl
  register_all-texts (image ∷ images) q ledger = ground (
    arith,
    register_all-texts images q (register_key_image sodium image ledger).1,
    register_text image q ledger,
  )

-- What a block spends on a node. The canonical representatives of its images are distinct, and none of
-- the images was spent, in the ledger or in the database. Afterwards the block is found by its
-- hash; an image is spent in the database exactly if it has the representative of one of the
-- block's or was spent before, and in the ledger exactly if the text of its representative is that
-- of one of the block's or it was spent before.
pub record SpentImages (sodium : Sodium) (lmdb : Lmdb) (txns : Transactions) (block : Block)
    (node node' : Node sodium lmdb) (q : List ℕ) : Type 0 where
  distinct : distinct_keys (canonical_images sodium (block_images block)) ≡ true
  unspent :
      All (λ image. spent_already sodium lmdb txns.reading node image ≡ false) (block_images block)
  found :
      get_block_by_hash sodium lmdb txns.reading node'.db (header_hash sodium block.header)
      ≡ some block
  in_database : is_key_image_spent sodium lmdb txns.reading node'.db q ≡ (
      contains_key (canonical_images sodium (block_images block)) (canonical_key_image sodium q)
      || is_key_image_spent sodium lmdb txns.reading node.db q)
  in_ledger : is_spent sodium q node'.key_image_ledger ≡ (
      contains_key
        (canonical_texts sodium (block_images block))
        (to_hex (canonical_key_image sodium q))
      || is_spent sodium q node.key_image_ledger)

Incorporated-SpentImages :
    (sodium : Sodium) (lmdb : Lmdb) (txns : Transactions) (block : Block)
    (node node' : Node sodium lmdb) (q : List ℕ)
    → IsMap lmdb
    → IsSendable sodium.is_valid_point block
    → txns.reading.begins ≡ true
    → Incorporated sodium lmdb txns.committing block node node'
        (check_block sodium lmdb txns.reading node block)
    → SpentImages sodium lmdb txns block node node' q
unfolding distinct_keys canonical_images take_effects
Incorporated-SpentImages sodium lmdb txns block node node' q map sendable readable i =
    let c = check_block-Checked sodium lmdb txns.reading node block i.effects i.checked in
    let kept : node'.db ≡ i.db = ap (λ (n : Node sodium lmdb). n.db) i.after in
    let ledger : node'.key_image_ledger
        ≡ register_all sodium i.effects.spent_images node.key_image_ledger =
      ap (λ (n : Node sodium lmdb). n.key_image_ledger) i.after in
    let (_, _, _, _, spent, _) =
      commit_block_lem sodium lmdb map txns.committing txns.reading block
        (take_effects sodium lmdb block i.effects node).vault i.effects.new_utxos
        i.effects.spent_images node.db i.db sendable readable i.committed block.header.height q
        sendable.front.height in
    let own = header_hash sodium block.header in
    let (_, _, _, found, _, _) =
      commit_block_lem sodium lmdb map txns.committing txns.reading block
        (take_effects sodium lmdb block i.effects node).vault i.effects.new_utxos
        i.effects.spent_images node.db i.db sendable readable i.committed block.header.height own
        sendable.front.height in
    record {
      distinct = Fresh-distinct sodium lmdb txns.reading node [] (block_images block) c.fresh refl;
      unspent = Fresh-unspent sodium lmdb txns.reading node [] (block_images block) c.fresh;
      found = rw kept (found ∙ rw (bytes_eq_refl own) refl);
      in_database = rw (kept, ← c.spent_images) spent;
      in_ledger =
          rw (ledger, ← c.spent_images)
            (register_all-texts sodium i.effects.spent_images q node.key_image_ledger);
    }

-- A block that can be sent is accepted, and reading transactions begin. Then it is the top already and
-- nothing changes, or else, whether it extends the chain or replaces the top, it spends its images,
-- each once and none spent before, on the node that it is checked on: after a rollback of the top,
-- that is the node recovered from the database.
pub apply_remote_block-spends :
    (sodium : Sodium) (lmdb : Lmdb) (txns : Transactions) (block : Block)
    (node node' : Node sodium lmdb) (q : List ℕ)
    → IsMap lmdb
    → IsSendable sodium.is_valid_point block
    → txns.reading.begins ≡ true
    → apply_remote_block sodium lmdb txns block node ≡ (accepted, node')
    → let fork = fork_choice sodium lmdb txns.reading block node in
      ((fork ≡ Fork.same) × (node' ≡ node))
      ⊎ SpentImages sodium lmdb txns block (checked_on sodium lmdb txns node fork) node' q
apply_remote_block-spends sodium lmdb txns block node node' q map sendable readable h =
    elim (apply_remote_block-Accepted sodium lmdb txns block node node' h) [
      | inl top ↦ inl top
      | inr i ↦
          inr (Incorporated-SpentImages sodium lmdb txns block _ node' q map sendable readable i)
    ]
