-- ===== src/Database/Written.antt =====
-- src/blockchain_db.cpp: what is found in the tables that `commit_block` wrote.
use cryptopeg.Prelude.{ℕ, ◌≡◌, ap, ◌∙◌, Option, some, List, if◌then◌else◌, bytes_eq}
use cryptopeg.Errors.{Error, Result, ok}
use cryptopeg.Vault.{Vault}
use cryptopeg.Block.{OneTimeOutput, Block}
use cryptopeg.Block.Encode.{serialize}
use cryptopeg.Quorum.{contains_key, header_hash}
use cryptopeg.Sodium.{Sodium}
use cryptopeg.Lmdb.{Lmdb, IsMap}
use cryptopeg.Database.{Tables, height_key, vault_bytes, top_height_key, vault_state_key}
use cryptopeg.Database.Commit.{put_or, put_images, put_utxos, put_deposits, write_block}
use cryptopeg.Database.Rollback.{deposit_keys}
use cryptopeg.Database.Lookup.{
  canonical_images, last_output, >>=-ok, put_or_get, put_images_get, put_utxos_get,
  put_deposits_get,
}

module _ (sodium : Sodium) (lmdb : Lmdb) where
  module _ (block : Block) (vault : Vault) (new_utxos : List OneTimeOutput)
      (spent_images : List (List ℕ)) (t t' : Tables sodium lmdb) where
    -- What a key finds in the tables `t'`, by what it finds in `t`.
    pub record Written (q : List ℕ) : Type 0 where
      pub bytes : List ℕ
      pub serialized : serialize block ≡ ok bytes
      pub blocks : lmdb.get q t'.blocks ≡ (
          if bytes_eq (height_key block.header.height) q then some bytes else lmdb.get q t.blocks)
      pub block_index : lmdb.get q t'.block_index ≡ (
          if bytes_eq (header_hash sodium block.header) q
          then some (height_key block.header.height)
          else lmdb.get q t.block_index)
      pub key_images : lmdb.get q t'.key_images ≡ (
          if contains_key (canonical_images sodium spent_images) q
          then some (height_key block.header.height)
          else lmdb.get q t.key_images)
      pub utxos : lmdb.get q t'.utxos ≡ last_output q new_utxos (lmdb.get q t.utxos)
      pub deposit_txs : lmdb.get q t'.deposit_txs ≡ (
          if contains_key (deposit_keys block.deposits) q
          then some (height_key block.header.height)
          else lmdb.get q t.deposit_txs)
      pub metadata : lmdb.get q t'.metadata ≡ (
          if bytes_eq vault_state_key q
          then some (vault_bytes vault)
          else if bytes_eq top_height_key q
          then some (height_key block.header.height)
          else lmdb.get q t.metadata)

  module _ (map : IsMap lmdb) (block : Block) (vault : Vault) (new_utxos : List OneTimeOutput)
      (spent_images : List (List ℕ)) (t t' : Tables sodium lmdb) where
    pub write_block-Written :
        (q : List ℕ)
        → write_block sodium lmdb block vault new_utxos spent_images t ≡ ok t'
        → Written block vault new_utxos spent_images t t' q
    unfolding write_block
    write_block-Written q h =
        let height = height_key block.header.height in
        let (bytes, serialized, h₁) = >>=-ok (serialize block) _ t' h in
        let (blocks, put_block, h₂) =
          >>=-ok (put Error.put_block_failed (lmdb.put height bytes t.blocks)) _ t' h₁ in
        let (index, put_index, h₃) =
          >>=-ok
            (put Error.put_index_failed
              (lmdb.put (header_hash sodium block.header) height t.block_index))
            _ t' h₂ in
        let (images, put_image, h₄) =
          >>=-ok (put_images sodium lmdb height spent_images t.key_images) _ t' h₃ in
        let (utxos, put_utxo, h₅) = >>=-ok (put_utxos sodium lmdb new_utxos t.utxos) _ t' h₄ in
        let (deposits, put_deposit, h₆) =
          >>=-ok (put_deposits sodium lmdb height block.deposits t.deposit_txs) _ t' h₅ in
        let (heights, put_height, h₇) =
          >>=-ok (put Error.put_height_failed (lmdb.put top_height_key height t.metadata)) _ t'
            h₆ in
        let (metadata, put_vault, done) =
          >>=-ok (put Error.put_vault_failed (lmdb.put vault_state_key (vault_bytes vault) heights))
            _ t' h₇ in
        rw (← ok_injective done) (record {
          bytes = bytes;
          serialized = serialized;
          blocks =
              put_or_get sodium lmdb map Error.put_block_failed height bytes q t.blocks blocks
                put_block;
          block_index =
              put_or_get sodium lmdb map Error.put_index_failed (header_hash sodium block.header)
                height q t.block_index index put_index;
          key_images =
              put_images_get sodium lmdb map height q spent_images t.key_images images put_image;
          utxos = put_utxos_get sodium lmdb map q new_utxos t.utxos utxos put_utxo;
          deposit_txs =
              put_deposits_get sodium lmdb map height q block.deposits t.deposit_txs deposits
                put_deposit;
          metadata =
              put_or_get sodium lmdb map Error.put_vault_failed vault_state_key (vault_bytes vault)
                q heights metadata put_vault
              ∙ ap
                  (λ before.
                    if bytes_eq vault_state_key q then some (vault_bytes vault) else before)
                  (put_or_get sodium lmdb map Error.put_height_failed top_height_key height q
                    t.metadata heights put_height);
        })
      where
        put : Error → Option lmdb.Table → Result lmdb.Table
        put = put_or sodium lmdb

        ok_injective : {x y : Tables sodium lmdb} → ok x ≡ ok y → x ≡ y
        ok_injective e = cc (e)
