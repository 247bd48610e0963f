-- ===== src/Database/Removed.antt =====
-- src/blockchain_db.cpp: what `rollback_top_block` takes out of the tables.
use cryptopeg.Prelude.{
  ℕ, ◌≡◌, refl, sym, ap, ◌∙◌, arith, ◌||◌, none, some, Option-cases, List, [], ◌∷◌, ◌++◌,
  if◌then◌else◌, bytes_eq, inl, inr,
}
use cryptopeg.Errors.{ok}
use cryptopeg.Block.{ShieldedTransaction, Block}
use cryptopeg.Block.Decode.{deserialize}
use cryptopeg.Quorum.{contains_key, header_hash}
use cryptopeg.Sodium.{Sodium}
use cryptopeg.Lmdb.{Lmdb, IsMap, NeverFull}
use cryptopeg.Database.{Tables, height_key}
use cryptopeg.Database.Rollback.{
  or_same, del_all, tx_images, withdrawal_images, output_keys, del_tx_outputs, deposit_keys,
  without_block, take_off,
}
use cryptopeg.Database.Lookup.{canonical_images, or_same_get, del_all_get}
use cryptopeg.Database.Contents.{
  tx_outputs, block_images, block_outputs, contains_key-append, output_keys-append,
  canonical-block_images,
}

some_injective {ℓ} : {A : Type ℓ} (x y : A) → some x ≡ some y → x ≡ y
some_injective x y e = cc (e)

module _ (sodium : Sodium) (lmdb : Lmdb) where
  del_all-append :
      (xs ys : List (List ℕ)) (t : lmdb.Table)
      → del_all sodium lmdb (xs ++ ys) t ≡ del_all sodium lmdb ys (del_all sodium lmdb xs t)
  unfolding del_all
  del_all-append [] ys t = refl
  del_all-append (x ∷ xs) ys t = del_all-append xs ys (or_same sodium lmdb (lmdb.del x t) t)

  del_tx_outputs-eq :
      (txs : List ShieldedTransaction) (t : lmdb.Table)
      → del_tx_outputs sodium lmdb txs t ≡ del_all sodium lmdb (output_keys (tx_outputs txs)) t
  unfolding del_tx_outputs tx_outputs output_keys del_all
  del_tx_outputs-eq [] t = refl
  del_tx_outputs-eq (tx ∷ txs) t =
      del_tx_outputs-eq txs (del_all sodium lmdb (output_keys tx.outputs) t)
      ∙ sym (
          ap (λ ks. del_all sodium lmdb ks t) (output_keys-append tx.outputs (tx_outputs txs))
          ∙ del_all-append (output_keys tx.outputs) (output_keys (tx_outputs txs)) t)

  module _ (block : Block) (top : ℕ) (t t' : Tables sodium lmdb) where
    -- What a key finds in the tables `t'` without the block, by what it finds in `t`.
    pub record Removed (q : List ℕ) : Type 0 where
      pub blocks :
          lmdb.get q t'.blocks ≡ (if bytes_eq (height_key top) q then none else lmdb.get q t.blocks)
      pub key_images : lmdb.get q t'.key_images ≡ (
          if contains_key (canonical_images sodium (block_images block)) q
          then none
          else lmdb.get q t.key_images)
      pub block_index : lmdb.get q t'.block_index ≡ (
          if bytes_eq (header_hash sodium block.header) q then none else lmdb.get q t.block_index)
      pub metadata : lmdb.get q t'.metadata ≡ lmdb.get q t.metadata
      pub utxos : lmdb.get q t'.utxos ≡ (
          if contains_key (output_keys (block_outputs block)) q then none else lmdb.get q t.utxos)
      pub deposit_txs : lmdb.get q t'.deposit_txs ≡ (
          if contains_key (deposit_keys block.deposits) q then none else lmdb.get q t.deposit_txs)

  contains_key-utxos :
      (b : Block) (q : List ℕ)
      → contains_key (output_keys (block_outputs b)) q ≡ (
          contains_key (output_keys b.withdrawal_outputs) q
          || (contains_key (output_keys (tx_outputs b.txs)) q
              || contains_key (output_keys b.deposit_outputs) q))
  unfolding block_outputs
  contains_key-utxos b q =
      rw
        (
          output_keys-append (tx_outputs b.txs) (b.deposit_outputs ++ b.withdrawal_outputs),
          output_keys-append b.deposit_outputs b.withdrawal_outputs,
          contains_key-append (output_keys (tx_outputs b.txs)),
          contains_key-append (output_keys b.deposit_outputs),
        )
        (ground arith)

  module _ (map : IsMap lmdb) (full : NeverFull lmdb) (block : Block) (top : ℕ) (bytes : List ℕ)
      (t t' : Tables sodium lmdb) where
    without_block-Removed :
        (q : List ℕ) (blocks : lmdb.Table)
        → lmdb.del (height_key top) t.blocks ≡ some blocks
        → Removed block top t (without_block sodium lmdb block blocks t) q
    unfolding without_block
    without_block-Removed q blocks deleted =
        let spends = tx_images sodium block.txs in
        let burns = withdrawal_images sodium block.withdrawals in
        let deposits = output_keys block.deposit_outputs in
        let outputs = output_keys (tx_outputs block.txs) in
        let changes = output_keys block.withdrawal_outputs in
        record {
          blocks = map.get_del (height_key top) q t.blocks blocks deleted;
          block_index =
              or_same_get sodium lmdb map full (header_hash sodium block.header) q t.block_index;
          key_images =
              rw (canonical-block_images sodium block, contains_key-append)
                (ground (
                  arith,
                  del_all_get sodium lmdb map full burns q
                      (del_all sodium lmdb spends t.key_images),
                  del_all_get sodium lmdb map full spends q t.key_images,
                ));
          metadata = refl;
          utxos =
              rw (contains_key-utxos block q, del_tx_outputs-eq)
                (ground (
                  arith,
                  del_all_get sodium lmdb map full changes q
                      (del_all sodium lmdb outputs (del_all sodium lmdb deposits t.utxos)),
                  del_all_get sodium lmdb map full outputs q (del_all sodium lmdb deposits t.utxos),
                  del_all_get sodium lmdb map full deposits q t.utxos,
                ));
          deposit_txs =
              del_all_get sodium lmdb map full (deposit_keys block.deposits) q t.deposit_txs;
        }

    pub take_off-Removed :
        (q : List ℕ)
        → lmdb.get (height_key top) t.blocks ≡ some bytes
        → deserialize sodium.is_valid_point bytes ≡ ok block
        → take_off sodium lmdb t top ≡ some t'
        → Removed block top t t' q
    unfolding take_off
    take_off-Removed q found read h = elim (Option-cases (lmdb.del (height_key top) t.blocks)) [
      | inl failed ↦ cc (rw (found, read, failed, take_off) at h)
      | inr (blocks, deleted) ↦
          let done = rw (found, read, deleted, take_off) at h in
          rw (← some_injective _ t' done) (without_block-Removed q blocks deleted)
    ]
