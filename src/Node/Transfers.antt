-- ===== src/Node/Transfers.antt =====
-- src/node.cpp: the loop of `apply_remote_block` over the shielded transactions.
use cryptopeg.Prelude.{
  ℕ, Bool, true, false, ◌&&◌, ◌||◌, not, ◌==◌, Option, none, some, List, [], ◌∷◌, ◌++◌,
  if◌then◌else◌, bytes_eq,
}
use cryptopeg.Amount.{safe_add_amount}
use cryptopeg.Block.{OneTimeOutput, ShieldedTransaction}
use cryptopeg.Ring.{distinct_keys, compute_canonical_tx_hash, verify}
use cryptopeg.KeyImages.{canonical_key_image, is_spent}
use cryptopeg.Sodium.{Sodium}
use cryptopeg.Lmdb.{Lmdb, Txn}
use cryptopeg.Database.{is_key_image_spent}
use cryptopeg.Node.{Refusal, Verdict, refuse, accept, ◌>>=◌, ◌>>◌, refuse_if, uncaught, Node}

-- The amount of the first output in the pool with a destination.
unfoldable pub amount_of : List ℕ → List OneTimeOutput → Option ℕ
amount_of key [] = none
amount_of key (u ∷ pool) =
    let rest = amount_of key pool in
    if bytes_eq key u.destination_one_time then some u.amount else rest

-- The sum of the fee and of the outputs so far, and the rest of the loop.
unfoldable pub total_spent : ℕ → List OneTimeOutput → Verdict ℕ
total_spent total [] = accept total
total_spent total (out ∷ outs) =
    if out.amount == 0
    then refuse Refusal.output_of_zero
    else elim (safe_add_amount total out.amount) [
      | none ↦ refuse Refusal.outputs_overflow
      | some total' ↦ total_spent total' outs
    ]

-- The denomination, if it is set, and the member's amount.
abbrev pub same_denomination : Option ℕ → ℕ → Bool
same_denomination none amount = true
same_denomination (some denomination) amount = denomination == amount

unfoldable pub ring_denomination :
    List OneTimeOutput → Option ℕ → List (List ℕ) → Verdict (Option ℕ)
ring_denomination pool denomination [] = accept denomination
ring_denomination pool denomination (pk ∷ ring) = elim (amount_of pk pool) [
  | none ↦ refuse Refusal.unknown_member
  | some amount ↦
      let rest = ring_denomination pool (some amount) ring in
      if same_denomination denomination amount then rest else refuse Refusal.mixed_ring
]

abbrev pub is_denomination : Option ℕ → ℕ → Bool
is_denomination none total = false
is_denomination (some denomination) total = total == denomination

module _ (sodium : Sodium) where
  -- `!tx.outputs.empty()` and the hash of the first output, for a block of height 0.
  abbrev pub legacy_hash_valid : ℕ → List ℕ → List OneTimeOutput → Bool
  legacy_hash_valid height tx_hash [] = false
  legacy_hash_valid height tx_hash (out ∷ outs) =
      (height == 0) && bytes_eq tx_hash (sodium.generichash 32 out.destination_one_time)

  unfoldable pub hash_valid : ℕ → ShieldedTransaction → Bool
  hash_valid height tx =
      bytes_eq tx.tx_hash (
        compute_canonical_tx_hash sodium tx.outputs tx.public_fee tx.ring_sig.ring_pubkeys
          tx.ring_sig.key_image)
      || legacy_hash_valid height tx.tx_hash tx.outputs

  -- An image of the block so far has the canonical representative of this one.
  unfoldable pub spent_here : List (List ℕ) → List ℕ → Bool
  spent_here [] image = false
  spent_here (ki ∷ images) image =
      let rest = spent_here images image in
      if bytes_eq (canonical_key_image sodium ki) (canonical_key_image sodium image)
      then true
      else rest

module _ (sodium : Sodium) (lmdb : Lmdb) (reading : Txn) (node : Node sodium lmdb) where
  -- The tests of the ledger in memory and of the database.
  unfoldable pub spent_already : List ℕ → Bool
  spent_already image =
      is_spent sodium image node.key_image_ledger
      || is_key_image_spent sodium lmdb reading node.db image

  unfoldable pub check_tx : ℕ → ShieldedTransaction → List (List ℕ) → Verdict (Unit {0})
  check_tx height tx spent_images = do
    refuse_if (not (hash_valid sodium height tx)) Refusal.wrong_tx_hash
    verified ← uncaught (verify sodium tx.tx_hash tx.ring_sig)
    refuse_if (not verified) Refusal.bad_ring_signature
    refuse_if (spent_here sodium spent_images tx.ring_sig.key_image) Refusal.spent_in_block
    refuse_if (spent_already tx.ring_sig.key_image) Refusal.spent_before
    tx_total_spent ← total_spent tx.public_fee tx.outputs
    refuse_if (not (distinct_keys tx.ring_sig.ring_pubkeys)) Refusal.ring_repeats
    denomination ← ring_denomination node.utxo_pool none tx.ring_sig.ring_pubkeys
    refuse_if (not (is_denomination denomination tx_total_spent)) Refusal.unbalanced

  -- The images and the outputs of the transactions, after those before.
  unfoldable pub check_txs :
      ℕ
      → List ShieldedTransaction
      → List (List ℕ)
      → List OneTimeOutput
      → Verdict (List (List ℕ) × List OneTimeOutput)
  check_txs height [] spent_images new_utxos = accept (spent_images, new_utxos)
  check_txs height (tx ∷ txs) spent_images new_utxos = do
    check_tx height tx spent_images
    check_txs height txs (spent_images ++ (tx.ring_sig.key_image ∷ [])) (new_utxos ++ tx.outputs)
