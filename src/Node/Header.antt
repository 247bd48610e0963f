-- ===== src/Node/Header.antt =====
-- src/node.cpp: the tests of `apply_remote_block` on a block's header, and who signed it.
use cryptopeg.Prelude.{
  ℕ, ◌+◌, ◌%◌, ◌^◌, Bool, false, not, ◌==◌, ltb, max, Option, none, some, List, [], ◌∷◌, bytes_eq,
}
use cryptopeg.Vault.{DepositReceipt}
use cryptopeg.Block.{Block}
use cryptopeg.Merkle.{compute_merkle_root}
use cryptopeg.Quorum.{contains_key, verify_quorum, verify_signature}
use cryptopeg.Sodium.{Sodium}
use cryptopeg.Node.{Refusal, Verdict, refuse, accept, ◌>>=◌, ◌>>◌, refuse_if, uncaught}

-- A root that cannot be computed for want of leaves is no root.
abbrev pub is_root : List ℕ → Option (List ℕ) → Bool
is_root root none = false
is_root root (some calculated) = bytes_eq root calculated

module _ (sodium : Sodium) where
  unfoldable pub check_header : ℕ → List ℕ → Block → Verdict (Unit {0})
  check_header current_height current_top_hash block = do
    refuse_if (not (block.header.height == (current_height + 1) % 2 ^ 64)) Refusal.wrong_height
    refuse_if (not (bytes_eq block.header.prev_block_hash current_top_hash)) Refusal.wrong_previous
    root ← uncaught (compute_merkle_root sodium block)
    refuse_if (not (is_root block.header.merkle_root root)) Refusal.wrong_root

  -- A block with deposits has a quorum; another is signed by a validator, if any is authorized.
  unfoldable pub check_authority :
      List (List ℕ) → ℕ → Block → List DepositReceipt → Verdict (Unit {0})
  check_authority [] threshold block [] = accept tt
  check_authority [] threshold block (dep ∷ deps) = refuse Refusal.no_validators
  check_authority (k ∷ authorized) threshold block [] = do
    refuse_if (not (verify_signature sodium block.header)) Refusal.bad_signature
    refuse_if (not (contains_key (k ∷ authorized) block.header.validator_pubkey))
        Refusal.unknown_validator
  check_authority (k ∷ authorized) threshold block (dep ∷ deps) =
      refuse_if (ltb (verify_quorum sodium (k ∷ authorized) block.header) (max 1 threshold))
        Refusal.low_quorum
