-- ===== src/Database/Contents.antt =====
-- The images that a block spends and the outputs that it adds, as `Node::apply_remote_block` lists them
-- for the database.
use cryptopeg.Prelude.{ℕ, ◌≡◌, refl, ap, arith, ◌||◌, List, [], ◌∷◌, ◌++◌}
use cryptopeg.Vault.{WithdrawalReceipt}
use cryptopeg.Block.{OneTimeOutput, ShieldedTransaction, Block}
use cryptopeg.Quorum.{contains_key}
use cryptopeg.KeyImages.{canonical_key_image}
use cryptopeg.Sodium.{Sodium}
use cryptopeg.Database.Rollback.{tx_images, withdrawal_images, output_keys}
use cryptopeg.Database.Lookup.{canonical_images}

-- The outputs and the images of transactions, in their order.
unfoldable pub tx_outputs : List ShieldedTransaction → List OneTimeOutput
tx_outputs [] = []
tx_outputs (tx ∷ txs) = tx.outputs ++ tx_outputs txs

unfoldable pub raw_images : List ShieldedTransaction → List (List ℕ)
raw_images [] = []
raw_images (tx ∷ txs) = tx.ring_sig.key_image ∷ raw_images txs

unfoldable pub raw_burns : List WithdrawalReceipt → List (List ℕ)
raw_burns [] = []
raw_burns (wdr ∷ wdrs) = wdr.key_image ∷ raw_burns wdrs

-- The images that a block spends, and the outputs that it adds.
unfoldable pub block_images : Block → List (List ℕ)
block_images b = raw_images b.txs ++ raw_burns b.withdrawals

unfoldable pub block_outputs : Block → List OneTimeOutput
block_outputs b = tx_outputs b.txs ++ (b.deposit_outputs ++ b.withdrawal_outputs)

pub contains_key-append :
    (xs ys : List (List ℕ)) (q : List ℕ)
    → contains_key (xs ++ ys) q ≡ (contains_key xs q || contains_key ys q)
unfolding contains_key
contains_key-append [] ys q = refl
contains_key-append (x ∷ xs) ys q = ground (arith, contains_key-append xs ys q)

pub output_keys-append :
    (xs ys : List OneTimeOutput) → output_keys (xs ++ ys) ≡ output_keys xs ++ output_keys ys
unfolding output_keys
output_keys-append [] ys = refl
output_keys-append (x ∷ xs) ys = ap (λ ks. x.destination_one_time ∷ ks) (output_keys-append xs ys)

module _ (sodium : Sodium) where
  pub canonical_images-append :
      (xs ys : List (List ℕ))
      → canonical_images sodium (xs ++ ys)
        ≡ canonical_images sodium xs ++ canonical_images sodium ys
  unfolding canonical_images
  canonical_images-append [] ys = refl
  canonical_images-append (x ∷ xs) ys =
      ap (λ ks. canonical_key_image sodium x ∷ ks) (canonical_images-append xs ys)

  canonical-raw_images :
      (txs : List ShieldedTransaction)
      → canonical_images sodium (raw_images txs) ≡ tx_images sodium txs
  unfolding canonical_images raw_images tx_images
  canonical-raw_images [] = refl
  canonical-raw_images (tx ∷ txs) =
      ap (λ ks. canonical_key_image sodium tx.ring_sig.key_image ∷ ks) (canonical-raw_images txs)

  canonical-raw_burns :
      (wdrs : List WithdrawalReceipt)
      → canonical_images sodium (raw_burns wdrs) ≡ withdrawal_images sodium wdrs
  unfolding canonical_images raw_burns withdrawal_images
  canonical-raw_burns [] = refl
  canonical-raw_burns (wdr ∷ wdrs) =
      ap (λ ks. canonical_key_image sodium wdr.key_image ∷ ks) (canonical-raw_burns wdrs)

  -- The images of a block are those of its transactions and of its withdrawals.
  pub canonical-block_images :
      (b : Block)
      → canonical_images sodium (block_images b)
        ≡ tx_images sodium b.txs ++ withdrawal_images sodium b.withdrawals
  unfolding block_images
  canonical-block_images b =
      rw
        (
          canonical_images-append (raw_images b.txs) (raw_burns b.withdrawals),
          canonical-raw_images b.txs,
          canonical-raw_burns b.withdrawals,
        )
        refl
