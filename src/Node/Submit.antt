-- ===== src/Node/Submit.antt =====
-- src/node.cpp: `submit_pre_signed_transaction`, with the time of the clock as an argument.
use cryptopeg.Prelude.{
  ℕ, ◌+◌, ◌%◌, ◌^◌, not, ◌==◌, Option, none, some, List, [], ◌∷◌, ◌++◌, if◌then◌else◌, bytes_eq,
}
use cryptopeg.Errors.{Error, Result, ok, err, throw_if, ◌>>=◌, ◌>>◌}
use cryptopeg.Amount.{safe_add_amount}
use cryptopeg.Block.{OneTimeOutput, ShieldedTransaction, Block, new_header, new_block}
use cryptopeg.Merkle.{compute_merkle_root}
use cryptopeg.Quorum.{sign}
use cryptopeg.Stealth.{or_throw}
use cryptopeg.Ring.{
  ed25519_identity, distinct_keys, valid_points, compute_canonical_tx_hash, verify,
}
use cryptopeg.KeyImages.{register_key_image}
use cryptopeg.Sodium.{Sodium}
use cryptopeg.Sodium.Group.{eight}
use cryptopeg.Lmdb.{Lmdb, Txn}
use cryptopeg.Database.{Database}
use cryptopeg.Database.Commit.{commit_block}
use cryptopeg.Node.{Node, recover_state_from_db}
use cryptopeg.Node.Transfers.{amount_of, same_denomination, is_denomination, spent_already}

-- Step 5: the denomination of a ring.
unfoldable pub submitted_denomination :
    List OneTimeOutput → Option ℕ → List (List ℕ) → Result (Option ℕ)
submitted_denomination pool denomination [] = ok denomination
submitted_denomination pool denomination (pk ∷ ring) = elim (amount_of pk pool) [
  | none ↦ err Error.unknown_ring_member
  | some amount ↦
      let rest = submitted_denomination pool (some amount) ring in
      if same_denomination denomination amount then rest else err Error.unequal_ring_members
]

-- Step 5.1: the sum of the fee and of the outputs so far, and the rest of the loop.
unfoldable pub submitted_total : ℕ → List OneTimeOutput → Result ℕ
submitted_total total [] = ok total
submitted_total total (out ∷ outs) =
    if out.amount == 0 then err Error.empty_output else elim (safe_add_amount total out.amount) [
      | none ↦ err Error.spent_overflow
      | some total' ↦ submitted_total total' outs
    ]

-- The block with its root; a block always has one.
abbrev pub with_root : Block → Option (List ℕ) → Block
with_root b none = b
with_root b (some root) = record b { header = record b.header { merkle_root = root } }

module _ (sodium : Sodium) (lmdb : Lmdb) where
  -- Steps 1 to 7.
  unfoldable pub check_submitted : Txn → Node sodium lmdb → ShieldedTransaction → Result (Unit {0})
  check_submitted reading node tx = do
    throw_if (not (sodium.is_valid_point tx.ring_sig.key_image)) Error.bad_key_image
    ki_8 ← or_throw (sodium.scalarmult eight tx.ring_sig.key_image) Error.image_torsion_failed
    throw_if (bytes_eq ki_8 ed25519_identity) Error.small_order_image
    throw_if (spent_already sodium lmdb reading node tx.ring_sig.key_image) Error.double_spend
    throw_if (not (valid_points sodium tx.ring_sig.ring_pubkeys)) Error.bad_ring_member
    throw_if (not (distinct_keys tx.ring_sig.ring_pubkeys)) Error.repeated_ring_member
    denomination ← submitted_denomination node.utxo_pool none tx.ring_sig.ring_pubkeys
    total_spent ← submitted_total tx.public_fee tx.outputs
    throw_if (not (is_denomination denomination total_spent)) Error.spent_mismatch
    throw_if
        (not (
          bytes_eq
            (compute_canonical_tx_hash sodium tx.outputs tx.public_fee tx.ring_sig.ring_pubkeys
              tx.ring_sig.key_image)
            tx.tx_hash))
        Error.wrong_transaction_hash
    verified ← verify sodium tx.tx_hash tx.ring_sig
    throw_if (not verified) Error.invalid_ring_signature

  -- Steps 8 and 9.
  unfoldable pub take_tx : ShieldedTransaction → Node sodium lmdb → Node sodium lmdb
  take_tx tx node = record node {
    key_image_ledger = (register_key_image sodium tx.ring_sig.key_image node.key_image_ledger).1;
    utxo_pool = node.utxo_pool ++ tx.outputs;
    tx_history = node.tx_history ++ (tx ∷ []);
  }

  unfoldable pub next_block : ℕ → ShieldedTransaction → Node sodium lmdb → Block
  next_block timestamp tx node = record new_block {
    header = record new_header {
      height = (node.db.top_height + 1) % 2 ^ 64;
      prev_block_hash = node.db.top_hash;
      timestamp = timestamp;
    };
    txs = tx ∷ [];
  }

  unfoldable pub sign_block : Node sodium lmdb → Block → Block
  sign_block node b =
      if node.has_validator_key
      then record b {
        header = sign sodium b.header node.validator_secret_key node.validator_pubkey;
      }
      else b

  -- The block of step 10.
  unfoldable pub mine_block : ℕ → ShieldedTransaction → Node sodium lmdb → Result Block
  mine_block timestamp tx node = do
    let block = next_block timestamp tx node
    root ← compute_merkle_root sodium block
    ok (sign_block node (with_root block root))

  -- The end of the method. A commit that throws has the memory read again.
  abbrev pub mined :
      Txn
      → ShieldedTransaction
      → Node sodium lmdb
      → Result (Unit {0}) × Database sodium lmdb
      → Result ShieldedTransaction × Node sodium lmdb
  mined reading tx node (ok _, db) = (ok tx, record node { db = db })
  mined reading tx node (err e, db) =
      (err e, recover_state_from_db sodium lmdb reading (record node { db = db }))

  abbrev pub commit_mined :
      Txn
      → Txn
      → ShieldedTransaction
      → Node sodium lmdb
      → Result Block
      → Result ShieldedTransaction × Node sodium lmdb
  commit_mined reading committing tx node (err e) = (err e, node)
  commit_mined reading committing tx node (ok block) = mined reading tx node (
      commit_block sodium lmdb committing block node.vault tx.outputs (tx.ring_sig.key_image ∷ [])
        node.db)

  abbrev pub mine_checked :
      Txn
      → Txn
      → ℕ
      → ShieldedTransaction
      → Node sodium lmdb
      → Result (Unit {0})
      → Result ShieldedTransaction × Node sodium lmdb
  mine_checked reading committing timestamp tx node (err e) = (err e, node)
  mine_checked reading committing timestamp tx node (ok _) =
      let node' = take_tx tx node in
      commit_mined reading committing tx node' (mine_block timestamp tx node')

  unfoldable pub submit_pre_signed_transaction :
      Txn
      → Txn
      → ℕ
      → ShieldedTransaction
      → Node sodium lmdb
      → Result ShieldedTransaction × Node sodium lmdb
  submit_pre_signed_transaction reading committing timestamp tx node =
      mine_checked reading committing timestamp tx node (check_submitted reading node tx)
