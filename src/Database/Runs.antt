-- ===== src/Database/Runs.antt =====
-- Runs of the database on association lists, and its theorems at concrete inputs.
use cryptopeg.Prelude.{
  bytes_eq, ◌≡◌, ◌&&◌, ◌||◌, not, if◌then◌else◌, refl, true, arith, none, some, [],
}
use cryptopeg.Errors.{ok}
use cryptopeg.Vault.{Vault, new_vault}
use cryptopeg.Block.{zero_key}
use cryptopeg.Block.Encode.{
  serialize, serialize_tx, serialize_deposit, serialize_withdrawal, serialize_header,
  serialize_output, serialize_ring_sig, write_quorum,
}
use cryptopeg.Block.Sample.{key, block, block-IsSendable}
use cryptopeg.Quorum.{contains_key, header_hash}
use cryptopeg.Block.Decode.{
  deserialize, deserialize_deposit, deserialize_header, deserialize_output, deserialize_ring_sig,
  deserialize_tx, deserialize_withdrawal, read_block, read_block_outputs, read_burn_proof,
  read_destination, read_key_if_left, read_quorum, read_quorum_entry, read_recipient, read_ring_key,
}
use cryptopeg.Serial.BigEndian.{to_big_endian_64}
use cryptopeg.Sodium.Toy.{toy}
use cryptopeg.Serial.{
  write_each, write_string, read_bytes, read_le, read_many, read_string, read_u32, read_u64,
  require_remaining, write_all, write_bytes, write_le, write_u32, write_u64,
}
use cryptopeg.Lmdb.Toy.{Pairs, association, association-IsMap, association-NeverFull, sound}
use cryptopeg.Database.{
  Database, hash_or_zero, get_block_by_height, get_block_by_hash, is_key_image_spent,
  is_deposit_tx_processed, height_key,
}
use cryptopeg.Database.Commit.{commit_block, write_block, put_images, put_utxos, put_deposits}
use cryptopeg.Database.Rollback.{
  rollback_top_block, output_keys, deposit_keys, take_off, new_top_hash, replay_chain,
  replay_height, without_block, write_rollback,
}
use cryptopeg.Database.Contents.{block_images, block_outputs, raw_images, raw_burns, tx_outputs}
use cryptopeg.Database.Committed.{commit_block_lem}
use cryptopeg.Database.Entries.{is_entry}
use cryptopeg.KeyImages.{canonical_key_image}
use cryptopeg.Database.Lookup.{canonical_images}
use cryptopeg.Database.Undone.{rollback-commit}
use cryptopeg.Prelude.{bytes_eq}
use cryptopeg.Database.{vault_state_key, vault_bytes, top_height_key, height_key}

abbrev nothing : Pairs
nothing = []

-- A database of two blocks, of which the tables hold none.
abbrev start : Database toy association
start = record {
  is_open = true;
  tables = record {
    blocks = nothing;
    block_index = nothing;
    key_images = nothing;
    utxos = nothing;
    metadata = nothing;
    deposit_txs = nothing;
  };
  top_height = 2;
  top_hash = zero_key;
}

abbrev vault : Vault
vault = record {
  total_collateral = 1000;
  circulating_supply = 995;
  fee_pool_reserve = 5;
  deposit_fee_bps = 50;
  withdraw_fee_bps = 50;
}

abbrev committed : Database toy association
committed =
    (commit_block toy association sound block vault (block_outputs block) (block_images block)
      start).1

done :
    commit_block toy association sound block vault (block_outputs block) (block_images block) start
    ≡ (ok tt, committed)
unfolding commit_block write_block serialize put_images put_utxos put_deposits write_each
    serialize_tx write_string serialize_deposit serialize_withdrawal block_outputs block_images
    raw_images raw_burns tx_outputs
done = refl

abbrev rolled_back : Database toy association
rolled_back = (rollback_top_block toy association sound committed).1

undone : rollback_top_block toy association sound committed ≡ (true, rolled_back)
unfolding rollback_top_block commit_block write_block serialize put_images put_utxos put_deposits
    write_each serialize_tx write_string serialize_deposit serialize_withdrawal block_outputs
    block_images raw_images raw_burns tx_outputs take_off deserialize deserialize_deposit
    deserialize_header deserialize_output deserialize_ring_sig deserialize_tx deserialize_withdrawal
    read_block read_block_outputs read_burn_proof read_destination read_key_if_left read_quorum
    read_quorum_entry read_recipient read_ring_key serialize_header serialize_output
    serialize_ring_sig write_quorum new_top_hash replay_chain replay_height without_block
    write_rollback height_key to_big_endian_64 read_bytes read_le read_many read_string read_u32
    read_u64 require_remaining write_all write_bytes write_le write_u32 write_u64 bytes_eq
undone = refl

commit_block_lem_example :
    (committed.top_height ≡ 3)
    × (committed.top_hash ≡ header_hash toy block.header)
    × (get_block_by_height toy association sound committed 3 ≡ some block)
    × (get_block_by_hash toy association sound committed key ≡ (
        if bytes_eq (header_hash toy block.header) key || is_entry (height_key 3) none
        then some block
        else get_block_by_hash toy association sound start key))
    × (is_key_image_spent toy association sound committed key ≡ (
        contains_key (canonical_images toy (block_images block)) (canonical_key_image toy key)
        || is_key_image_spent toy association sound start key))
    × (is_deposit_tx_processed toy association sound committed key ≡ (
        contains_key (deposit_keys block.deposits) key
        || is_deposit_tx_processed toy association sound start key))
commit_block_lem_example =
    commit_block_lem toy association association-IsMap sound sound block vault (block_outputs block)
      (block_images block) start committed block-IsSendable refl done 3 key (omega arith)

rollback-commit_example :
    (rolled_back.top_height ≡ 2)
    × (rolled_back.top_hash
        ≡ hash_or_zero toy association (get_block_by_height toy association sound start 2))
    × (get_block_by_height toy association sound rolled_back 3 ≡ none)
    × (is_key_image_spent toy association sound rolled_back key ≡ (
        not (contains_key (canonical_images toy (block_images block)) (canonical_key_image toy key))
        && is_key_image_spent toy association sound start key))
    × (is_deposit_tx_processed toy association sound rolled_back key ≡ (
        not (contains_key (deposit_keys block.deposits) key)
        && is_deposit_tx_processed toy association sound start key))
    × (association.get key rolled_back.tables.utxos
        ≡ (if contains_key (output_keys (block_outputs block)) key then none else none))
    × (association.get key rolled_back.tables.block_index
        ≡ (if bytes_eq (header_hash toy block.header) key then none else none))
    × ((replayed : Vault) × (replay_chain toy association start.tables 2 (new_vault 50 50)
          ≡ ok replayed)
        × (association.get key rolled_back.tables.metadata ≡ (
            if bytes_eq vault_state_key key
            then some (vault_bytes replayed)
            else if bytes_eq top_height_key key
            then some (height_key 2)
            else none)))
rollback-commit_example =
    rollback-commit toy association association-IsMap association-NeverFull sound sound sound block
      vault start committed rolled_back block-IsSendable refl refl done undone 3 key (omega arith)
