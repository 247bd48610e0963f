-- ===== src/Block/WholeTrip.antt =====
-- src/block.cpp: `Block::deserialize` reads what `Block::serialize` wrote.
use mathlib.Core.List.{append_assoc}
use cryptopeg.Prelude.{ℕ, ◌≤◌, ◌≡◌, refl, Bool, arith, List, ◌++◌, length, All, le→ltb}
use cryptopeg.Errors.{ok}
use cryptopeg.Serial.Format.{list_bytes, u32_bytes, read_u32-u32_bytes, read_many-list_bytes}
use cryptopeg.Block.{
  OneTimeOutput, Block, max_block_transactions, max_block_deposits, max_block_withdrawals,
  max_block_outputs,
}
use cryptopeg.Block.Encode.{serialize}
use cryptopeg.Block.Decode.{
  deserialize_tx, deserialize_deposit, deserialize_withdrawal, read_block_outputs, read_block,
  deserialize,
}
use cryptopeg.Block.Format.{
  output_bytes, counted_bytes, tx_bytes, deposit_bytes, withdrawal_bytes, block_bytes, IsDeposit,
  IsWithdrawal, IsOutput, IsTransaction, IsSendable,
}
use cryptopeg.Block.Written.{serialize_lem}
use cryptopeg.Block.RoundTrip.{
  deserialize_tx_lem, deserialize_deposit_lem, deserialize_withdrawal_lem, read_outputs_lem,
}
use cryptopeg.Block.HeaderTrip.{count_left, deserialize_header_lem}

-- A count, the elements, and what follows them.
split_counted {ℓ} :
    {A : Type ℓ} (bytes : A → List ℕ) (xs : List A) (t : List ℕ)
    → counted_bytes bytes xs ++ t ≡ u32_bytes (length xs) ++ (list_bytes bytes xs ++ t)
unfolding counted_bytes
split_counted bytes xs t = append_assoc (u32_bytes (length xs)) (list_bytes bytes xs) t

module _ (is_valid_point : List ℕ → Bool) where
  read_block_outputs_lem :
      (outs : List OneTimeOutput) (t : List ℕ)
      → length outs ≤ max_block_outputs
      → All (IsOutput is_valid_point) outs
      → read_block_outputs is_valid_point
          (length (counted_bytes output_bytes outs ++ t))
          (counted_bytes output_bytes outs ++ t)
        ≡ ok (outs, t)
  unfolding read_block_outputs counted_bytes
  read_block_outputs_lem outs t few h = simp append_assoc (
      rw
        (
          count_left (length outs) (list_bytes output_bytes outs ++ t),
          read_u32-u32_bytes (length outs) _ (omega arith),
          le→ltb max_block_outputs (length outs) few,
          read_outputs_lem is_valid_point outs t h,
        )
        refl)

  read_block-block_bytes :
      (b : Block) (t : List ℕ)
      → IsSendable is_valid_point b
      → read_block is_valid_point (block_bytes b ++ t) ≡ ok (b, t)
  unfolding read_block block_bytes
  read_block-block_bytes b t h = simp append_assoc (
      rw
        (
          deserialize_header_lem b.header _ h.modern h.front h.quorum,
          split_counted tx_bytes b.txs,
          read_u32-u32_bytes (length b.txs) _ (omega arith),
          le→ltb max_block_transactions (length b.txs) h.few_txs,
          read_many-list_bytes (IsTransaction is_valid_point) tx_bytes
              (deserialize_tx is_valid_point) (deserialize_tx_lem is_valid_point) b.txs _ h.txs,
          split_counted deposit_bytes b.deposits,
          read_u32-u32_bytes (length b.deposits) _ (omega arith),
          le→ltb max_block_deposits (length b.deposits) h.few_deposits,
          read_many-list_bytes IsDeposit deposit_bytes deserialize_deposit deserialize_deposit_lem
              b.deposits _ h.deposits,
          split_counted withdrawal_bytes b.withdrawals,
          read_u32-u32_bytes (length b.withdrawals) _ (omega arith),
          le→ltb max_block_withdrawals (length b.withdrawals) h.few_withdrawals,
          read_many-list_bytes IsWithdrawal withdrawal_bytes deserialize_withdrawal
              deserialize_withdrawal_lem b.withdrawals _ h.withdrawals,
          read_block_outputs_lem b.deposit_outputs _ h.few_outputs h.deposit_outputs,
          read_block_outputs_lem b.withdrawal_outputs t h.few_changes h.withdrawal_outputs,
        )
        refl)

-- Whatever follows it, a block that can be sent is serialized without an exception, and its bytes
-- are read back as the same block.
pub deserialize-serialize :
    (is_valid_point : List ℕ → Bool) (b : Block) (t : List ℕ)
    → IsSendable is_valid_point b
    → (bytes : List ℕ) × (serialize b ≡ ok bytes) × (deserialize is_valid_point (bytes ++ t) ≡ ok b)
unfolding deserialize
deserialize-serialize is_valid_point b t h = (
  block_bytes b,
  serialize_lem is_valid_point b h,
  rw (read_block-block_bytes is_valid_point b t h) refl,
)
