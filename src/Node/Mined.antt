-- ===== src/Node/Mined.antt =====
-- src/node.cpp: the block of `submit_pre_signed_transaction`, as `apply_remote_block` sees it.
use cryptopeg.Prelude.{
  ℕ, ◌+◌, ◌%◌, ◌^◌, ◌≡◌, refl, ap, arith, Bool, true, false, ◌&&◌, ◌==◌, ltb, [], ◌∷◌,
  if◌then◌else◌, Bool-cases, inl, inr,
}
use cryptopeg.Errors.{Result, ok, err}
use cryptopeg.Vault.Solvency.{IsSolvent}
use cryptopeg.Block.{ShieldedTransaction, BlockHeader, Block}
use cryptopeg.Quorum.{contains_key, sign, add_quorum_signature}
use cryptopeg.Merkle.{
  deposit_leaves, withdrawal_leaves, output_leaves, block_leaves, climb, tree_root,
  compute_merkle_root,
}
use cryptopeg.Sodium.{Sodium}
use cryptopeg.Lmdb.{Lmdb, Txn}
use cryptopeg.Database.{Database}
use cryptopeg.Node.{accept, Node}
use cryptopeg.Node.Fork.{extends, fork_choice}
use cryptopeg.Node.Header.{check_header, check_authority}
use cryptopeg.Node.Apply.{
  Transactions, accepted, persisted, incorporate, follow, apply_remote_block,
}
use cryptopeg.Node.Submit.{
  check_submitted, take_tx, next_block, sign_block, mine_block, mined, commit_mined, mine_checked,
  submit_pre_signed_transaction,
}
use cryptopeg.Node.OneTx.{one_tx, check_block-one, take_effects-one, check_header-one}
use cryptopeg.Node.Submitted.{check_submitted-check_tx}

-- The header that a block gets on a condition.
header_if :
    (c : Bool) (header root : BlockHeader) (tx : ShieldedTransaction)
    → (if c then one_tx header tx else one_tx root tx) ≡ one_tx (if c then header else root) tx
header_if true header root tx = refl
header_if false header root tx = refl

next_other : (height : ℕ) → (((height + 1) % 2 ^ 64 == height) && ltb 0 height) ≡ false
next_other height = ground arith

module _ (sodium : Sodium) (lmdb : Lmdb) where
  -- The header of the block that is mined.
  abbrev pub mined_header : ℕ → ShieldedTransaction → Node sodium lmdb → BlockHeader
  mined_header timestamp tx node =
      let root = record (next_block sodium lmdb timestamp tx node).header {
        merkle_root = tx.tx_hash;
      } in
      if node.has_validator_key
      then sign sodium root node.validator_secret_key node.validator_pubkey
      else root

  mine_block_lem :
      (timestamp : ℕ) (tx : ShieldedTransaction) (node : Node sodium lmdb)
      → mine_block sodium lmdb timestamp tx node ≡ ok (one_tx (mined_header timestamp tx node) tx)
  unfolding mine_block compute_merkle_root block_leaves deposit_leaves withdrawal_leaves
      output_leaves tree_root climb next_block sign_block
  mine_block_lem timestamp tx node = ap ok (header_if node.has_validator_key _ _ tx)

  -- Signing keeps the height, the previous hash and the root.
  mined_header-fields :
      (timestamp : ℕ) (tx : ShieldedTransaction) (node : Node sodium lmdb)
      → ((mined_header timestamp tx node).height ≡ (node.db.top_height + 1) % 2 ^ 64)
        × ((mined_header timestamp tx node).prev_block_hash ≡ node.db.top_hash)
        × ((mined_header timestamp tx node).merkle_root ≡ tx.tx_hash)
  unfolding next_block sign add_quorum_signature contains_key
  mined_header-fields timestamp tx node = elim (Bool-cases node.has_validator_key) [
    | inl e ↦ rw e (refl, refl, refl)
    | inr e ↦ rw e (refl, refl, refl)
  ]

  -- The next height is not that of the top.
  next_extends :
      (reading : Txn) (block : Block) (node : Node sodium lmdb)
      → block.header.height ≡ (node.db.top_height + 1) % 2 ^ 64
      → fork_choice sodium lmdb reading block node ≡ extends
  unfolding fork_choice
  next_extends reading block node h = rw (h, next_other node.db.top_height) refl

  -- What it takes for a submission to succeed.
  mine_checked-ok :
      (reading committing : Txn) (timestamp : ℕ) (tx tx' : ShieldedTransaction)
      (node node' : Node sodium lmdb) (checked : Result (Unit {0}))
      → mine_checked sodium lmdb reading committing timestamp tx node checked ≡ (ok tx', node')
      → (checked ≡ ok tt)
        × (commit_mined sodium lmdb reading committing tx
              (take_tx sodium lmdb tx node)
              (mine_block sodium lmdb timestamp tx (take_tx sodium lmdb tx node))
            ≡ (ok tx', node'))
  mine_checked-ok reading committing timestamp tx tx' node node' (err e) h = cc (h)
  mine_checked-ok reading committing timestamp tx tx' node node' (ok _) h = (refl, h)

  mined-persisted :
      (reading : Txn) (tx tx' : ShieldedTransaction) (node node' : Node sodium lmdb)
      (r : Result (Unit {0}) × Database sodium lmdb)
      → mined sodium lmdb reading tx node r ≡ (ok tx', node')
      → (tx' ≡ tx) × (persisted sodium lmdb node r ≡ (accepted, node'))
  mined-persisted reading tx tx' node node' (ok _, db) h = (cc (h), cc (h))
  mined-persisted reading tx tx' node node' (err e, db) h = cc (h)

  -- A node that receives a block of one transaction does what the node that mined it did.
  one_tx-applied :
      (txns : Transactions) (header : BlockHeader) (tx tx' : ShieldedTransaction)
      (node node' : Node sodium lmdb)
      → IsSolvent node.vault
      → header.height ≡ (node.db.top_height + 1) % 2 ^ 64
      → check_header sodium node.db.top_height node.db.top_hash (one_tx header tx) ≡ accept tt
      → check_authority sodium node.authorized_validators node.validator_quorum_threshold
          (one_tx header tx)
          []
        ≡ accept tt
      → check_submitted sodium lmdb txns.reading node tx ≡ ok tt
      → commit_mined sodium lmdb txns.reading txns.committing tx
          (take_tx sodium lmdb tx node)
          (ok (one_tx header tx))
        ≡ (ok tx', node')
      → (tx' ≡ tx)
        × (apply_remote_block sodium lmdb txns (one_tx header tx) node ≡ (accepted, node'))
  unfolding apply_remote_block follow incorporate take_tx
  one_tx-applied txns header tx tx' node node' s next headed authorized checked r =
      let (same, p) = mined-persisted txns.reading tx tx' (take_tx sodium lmdb tx node) node' _ r in
      let effects =
        check_block-one sodium lmdb txns.reading node header tx s headed authorized
          (check_submitted-check_tx sodium lmdb txns.reading node header.height tx checked) in
      (
        same,
        rw
            (
              next_extends txns.reading (one_tx header tx) node next,
              follow,
              effects,
              incorporate,
              take_effects-one sodium lmdb header tx node,
              p,
            )
            refl,
      )

  -- A transaction that is submitted with success, on a node with a solvent vault, is returned, and the
  -- node mines a block of it. If its signer is an authority for the node, or it needs none,
  -- then a node in the same state that receives the block accepts it, and is then in the same state as
  -- the node that mined.
  pub submit_pre_signed_transaction-apply_remote_block :
      (txns : Transactions) (timestamp : ℕ) (tx tx' : ShieldedTransaction)
      (node node' : Node sodium lmdb) (block : Block)
      → IsSolvent node.vault
      → mine_block sodium lmdb timestamp tx (take_tx sodium lmdb tx node) ≡ ok block
      → check_authority sodium node.authorized_validators node.validator_quorum_threshold block []
        ≡ accept tt
      → submit_pre_signed_transaction sodium lmdb txns.reading txns.committing timestamp tx node
        ≡ (ok tx', node')
      → (tx' ≡ tx)
        × (block.txs ≡ tx ∷ [])
        × (apply_remote_block sodium lmdb txns block node ≡ (accepted, node'))
  unfolding submit_pre_signed_transaction take_tx sign next_block
  submit_pre_signed_transaction-apply_remote_block txns timestamp tx tx' node node' block s m a h =
      let (checked, committed) =
        mine_checked-ok txns.reading txns.committing timestamp tx tx' node node' _ h in
      let header = mined_header timestamp tx node in
      let (next, previous, root) = mined_header-fields timestamp tx node in
      let mined_lem : mine_block sodium lmdb timestamp tx (take_tx sodium lmdb tx node)
          ≡ ok (one_tx header tx) =
        mine_block_lem timestamp tx (take_tx sodium lmdb tx node) in
      let same : block ≡ one_tx header tx = cc (m, mined_lem) in
      let (returned, applied) =
        one_tx-applied txns header tx tx' node node' s next
          (check_header-one sodium lmdb header tx node.db.top_height node.db.top_hash next previous
            root)
          (rw same at a) checked (rw mined_lem at committed) in
      rw same (returned, refl, applied)
