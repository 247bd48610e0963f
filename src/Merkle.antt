-- ===== src/Merkle.antt =====
-- src/block.cpp: `Block::compute_merkle_root` and `Block::create_genesis`.
pub mod Tree
pub mod Binding
mod Runs
use cryptopeg.Prelude.{ℕ, zero, suc, Option, none, some, List, [], ◌∷◌, ◌++◌, length}
use mathlib.Core.Option
use cryptopeg.Errors.{Result, ok, ◌>>=◌}
use cryptopeg.Vault.{DepositReceipt, WithdrawalReceipt}
use cryptopeg.Serial.{ByteWriter, write_u64, write_bytes, write_string}
use cryptopeg.Block.{
  OneTimeOutput, ShieldedTransaction, Block, BlockHeader, new_header, new_block, zero_key,
}
use cryptopeg.Sodium.{Sodium}

-- The output of a deposit, if there is one at its place.
unfoldable pub write_leaf_output : ByteWriter → List OneTimeOutput → ByteWriter
write_leaf_output w [] = w
write_leaf_output w (out ∷ outs) =
    let w₁ = write_bytes w out.ephemeral_public_key in
    let w₂ = write_bytes w₁ out.destination_one_time in write_u64 w₂ out.amount

-- What is hashed for a deposit; the first output, if any, is the one at its place.
unfoldable pub deposit_leaf : DepositReceipt → List OneTimeOutput → Result (List ℕ)
deposit_leaf dep outs = do
  w₁ ← write_string [] dep.tx_hash
  let w₂ = write_u64 w₁ dep.gross_usdt_deposited
  let w₃ = write_u64 w₂ dep.fee_to_pool
  let w₄ = write_u64 w₃ dep.net_shielded_tokens_minted
  let w₅ = write_bytes w₄ dep.recipient_view_pub
  let w₆ = write_bytes w₅ dep.recipient_spend_pub
  ok (write_leaf_output w₆ outs)

unfoldable pub withdrawal_leaf : WithdrawalReceipt → Result (List ℕ)
withdrawal_leaf wdr = do
  w₁ ← write_string [] wdr.order_id
  let w₂ = write_u64 w₁ wdr.gross_tokens_burned
  let w₃ = write_u64 w₂ wdr.fee_to_pool
  let w₄ = write_u64 w₃ wdr.net_usdt_to_tumble
  w₅ ← write_string w₄ wdr.destination_address
  let w₆ = write_bytes w₅ wdr.key_image
  let w₇ = write_bytes w₆ wdr.burned_utxo_pubkey
  let w₈ = write_bytes w₇ wdr.burn_signature_c0
  ok (write_bytes w₈ wdr.burn_signature_s)

unfoldable pub output_leaf : OneTimeOutput → List ℕ
output_leaf out =
    let w₁ = write_bytes [] out.ephemeral_public_key in
    let w₂ = write_bytes w₁ out.destination_one_time in write_u64 w₂ out.amount

abbrev pub tail_of {ℓ} : {A : Type ℓ} → List A → List A
tail_of [] = []
tail_of (x ∷ xs) = xs

abbrev pub tx_hashes : List ShieldedTransaction → List (List ℕ)
tx_hashes [] = []
tx_hashes (tx ∷ txs) = tx.tx_hash ∷ tx_hashes txs

abbrev pub genesis_header : BlockHeader
genesis_header = record new_header { timestamp = 1_773_273_600; nonce = 20_060_925_819_308_371 }

module _ (sodium : Sodium) where
  -- `crypto_generichash(…, 32, …)`
  abbrev pub hash32 : List ℕ → List ℕ
  hash32 bytes = sodium.generichash 32 bytes

  -- Deposit `i` with output `i`, while there are outputs.
  unfoldable pub deposit_leaves : List DepositReceipt → List OneTimeOutput → Result (List (List ℕ))
  deposit_leaves [] outs = ok []
  deposit_leaves (dep ∷ deps) outs = do
    bytes ← deposit_leaf dep outs
    leaves ← deposit_leaves deps (tail_of outs)
    ok (hash32 bytes ∷ leaves)

  unfoldable pub withdrawal_leaves : List WithdrawalReceipt → Result (List (List ℕ))
  withdrawal_leaves [] = ok []
  withdrawal_leaves (wdr ∷ wdrs) = do
    bytes ← withdrawal_leaf wdr
    leaves ← withdrawal_leaves wdrs
    ok (hash32 bytes ∷ leaves)

  unfoldable pub output_leaves : List OneTimeOutput → List (List ℕ)
  output_leaves [] = []
  output_leaves (out ∷ outs) = hash32 (output_leaf out) ∷ output_leaves outs

  unfoldable pub block_leaves : Block → Result (List (List ℕ))
  block_leaves b = do
    deposits ← deposit_leaves b.deposits b.deposit_outputs
    withdrawals ← withdrawal_leaves b.withdrawals
    ok (tx_hashes b.txs ++ (deposits ++ (withdrawals ++ output_leaves b.withdrawal_outputs)))

  -- One level up: neighbours are hashed together, and a last one alone with itself.
  unfoldable pub next_level : List (List ℕ) → List (List ℕ)
  next_level [] = []
  next_level (a ∷ []) = hash32 (a ++ a) ∷ []
  next_level (a ∷ b ∷ rest) = hash32 (a ++ b) ∷ next_level rest

  -- `while (current.size() > 1)`, with fuel; `none` is no result of the source.
  unfoldable pub climb : ℕ → List (List ℕ) → Option (List ℕ)
  climb fuel [] = none
  climb fuel (a ∷ []) = some a
  climb zero (a ∷ b ∷ rest) = none
  climb (suc fuel) (a ∷ b ∷ rest) = climb fuel (next_level (a ∷ b ∷ rest))

  -- The root of the leaves; each level has fewer hashes than the one below.
  unfoldable pub tree_root : List (List ℕ) → Option (List ℕ)
  tree_root [] = some zero_key
  tree_root (a ∷ leaves) = climb (length leaves) (a ∷ leaves)

  unfoldable pub compute_merkle_root : Block → Result (Option (List ℕ))
  compute_merkle_root b = do leaves ← block_leaves b; ok (tree_root leaves)

  -- `Block::create_genesis`, with the members' default values for the rest.
  unfoldable pub create_genesis : Result (Option Block)
  create_genesis = do
    root ← compute_merkle_root (record new_block { header = genesis_header })
    ok (
        Option.map (λ r. record new_block { header = record genesis_header { merkle_root = r } })
          root)
