-- ===== src/Node/Fork.antt =====
-- src/node.cpp: the choice between two blocks of one height, in `apply_remote_block`.
use cryptopeg.Prelude.{
  ℕ, Bool, true, false, ◌&&◌, not, ◌==◌, ltb, Option, none, some, List, if◌then◌else◌, bytes_eq,
}
use cryptopeg.Block.{Block}
use cryptopeg.Hex.{to_hex}
use cryptopeg.Quorum.{header_hash, lex_lt, verify_quorum}
use cryptopeg.Sodium.{Sodium}
use cryptopeg.Lmdb.{Lmdb, Txn}
use cryptopeg.Database.{get_block_by_height}
use cryptopeg.Node.{Refusal, Node}

-- What is to be done with a block, by its height.
pub data Fork : Type 0 where
  -- it is not of the height of the top
  extends : Fork
  -- it is the top
  same : Fork
  refused : Refusal → Fork
  -- it is preferred to this block, the top
  replaces : Block → Fork

module _ (sodium : Sodium) where
  -- `remote_preferred`
  unfoldable pub preferred : List (List ℕ) → Block → Block → Bool
  preferred authorized remote local =
      let remote_quorum = verify_quorum sodium authorized remote.header in
      let local_quorum = verify_quorum sodium authorized local.header in
      if ltb local_quorum remote_quorum
      then true
      else if remote_quorum == local_quorum
      then lex_lt (to_hex (header_hash sodium remote.header))
          (to_hex (header_hash sodium local.header))
      else false

  unfoldable pub compete : List (List ℕ) → Block → Option Block → Fork
  compete authorized remote none = refused Refusal.no_local_top
  compete authorized remote (some local) =
      if bytes_eq (header_hash sodium remote.header) (header_hash sodium local.header)
      then same
      else if not (bytes_eq remote.header.prev_block_hash local.header.prev_block_hash)
      then refused Refusal.no_common_ancestor
      else if preferred authorized remote local
      then replaces local
      else refused Refusal.local_preferred

module _ (sodium : Sodium) (lmdb : Lmdb) where
  unfoldable pub fork_choice : Txn → Block → Node sodium lmdb → Fork
  fork_choice reading block node =
      let height = node.db.top_height in
      if (block.header.height == height) && ltb 0 height
      then compete sodium node.authorized_validators block
          (get_block_by_height sodium lmdb reading node.db height)
      else extends
