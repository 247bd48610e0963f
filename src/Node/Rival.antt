-- ===== src/Node/Rival.antt =====
-- Two nodes whose tops compete, for examples.
use cryptopeg.Prelude.{◌≡◌, refl, arith, All, [], some, false, bytes_eq}
use cryptopeg.Errors.{ok}
use cryptopeg.Hex.RoundTrip.{IsByte}
use cryptopeg.Serial.{write_le, write_u32, write_u64, write_bytes, write_string, write_each}
use cryptopeg.Block.{Block}
use cryptopeg.Block.Format.{IsSendable}
use cryptopeg.Block.Encode.{
  serialize_header, write_quorum, serialize_tx, serialize_deposit, serialize_withdrawal, serialize,
}
use cryptopeg.Quorum.{header_hash}
use cryptopeg.Sodium.Toy.{toy}
use cryptopeg.Lmdb.Toy.{association, association-IsMap, sound}
use cryptopeg.Database.{get_block_by_height}
use cryptopeg.Database.Commit.{put_images, put_utxos, put_deposits, write_block, commit_block}
use cryptopeg.Database.Committed.{commit_block_lem}
use cryptopeg.Node.{Node}
use cryptopeg.Node.Choice.{Competes}
use cryptopeg.Node.Sample.{node, block, block-IsSendable, header}

-- A block of the same height without signatures.
abbrev pub rival : Block
rival = record block { header = record header { quorum_pubkeys = []; quorum_signatures = [] } }

rival-IsSendable : IsSendable toy.is_valid_point rival
rival-IsSendable = record {
  modern = omega arith;
  front = record {
    version = omega arith;
    height = omega arith;
    prev = refl;
    root = refl;
    time = omega arith;
    nonce = omega arith;
    key = refl;
    signature = refl;
  };
  quorum = record { few = omega arith; paired = refl; keys = tt; signatures = tt };
  few_txs = omega arith;
  txs = block-IsSendable.txs;
  few_deposits = omega arith;
  deposits = block-IsSendable.deposits;
  few_withdrawals = omega arith;
  withdrawals = tt;
  few_outputs = omega arith;
  deposit_outputs = block-IsSendable.deposit_outputs;
  few_changes = omega arith;
  withdrawal_outputs = tt;
}

-- The node with a block on top.
abbrev pub topped : Block → Node toy association
topped b = record node { db = (commit_block toy association sound b node.vault [] [] node.db).1 }

block_done :
    commit_block toy association sound block node.vault [] [] node.db ≡ (ok tt, (topped block).db)
unfolding commit_block write_block serialize put_images put_utxos put_deposits write_each
    serialize_tx write_string serialize_deposit serialize_withdrawal
block_done = refl

rival_done :
    commit_block toy association sound rival node.vault [] [] node.db ≡ (ok tt, (topped rival).db)
unfolding commit_block write_block serialize put_images put_utxos put_deposits write_each
    serialize_tx write_string serialize_deposit serialize_withdrawal
rival_done = refl

block_top : get_block_by_height toy association sound (topped block).db 1 ≡ some block
block_top =
    let (_, _, found, _, _, _) =
      commit_block_lem toy association association-IsMap sound sound block node.vault [] [] node.db
        (topped block).db block-IsSendable refl block_done 1 [] (omega arith) in
    found

rival_top : get_block_by_height toy association sound (topped rival).db 1 ≡ some rival
rival_top =
    let (_, _, found, _, _, _) =
      commit_block_lem toy association association-IsMap sound sound rival node.vault [] [] node.db
        (topped rival).db rival-IsSendable refl rival_done 1 [] (omega arith) in
    found

hashes_differ : bytes_eq (header_hash toy block.header) (header_hash toy rival.header) ≡ false
unfolding bytes_eq header_hash serialize_header write_quorum write_bytes write_u32 write_le
    write_u64
hashes_differ = refl

differ_hashes : bytes_eq (header_hash toy rival.header) (header_hash toy block.header) ≡ false
unfolding bytes_eq header_hash serialize_header write_quorum write_bytes write_u32 write_le
    write_u64
differ_hashes = refl

pub block_bytes : All IsByte (header_hash toy block.header)
unfolding header_hash
block_bytes = omega arith

pub rival_bytes : All IsByte (header_hash toy rival.header)
unfolding header_hash
rival_bytes = omega arith

pub rival-Competes : Competes toy association sound rival block (topped block)
unfolding commit_block write_block serialize put_images put_utxos put_deposits write_each
    serialize_tx write_string serialize_deposit serialize_withdrawal
rival-Competes = record {
  top = block_top;
  height = refl;
  positive = omega arith;
  parent = refl;
  differs = differ_hashes;
}

pub block-Competes : Competes toy association sound block rival (topped rival)
unfolding commit_block write_block serialize put_images put_utxos put_deposits write_each
    serialize_tx write_string serialize_deposit serialize_withdrawal
block-Competes = record {
  top = rival_top;
  height = refl;
  positive = omega arith;
  parent = refl;
  differs = hashes_differ;
}
