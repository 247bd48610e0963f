-- ===== src/Errors.antt =====
-- The exceptions of the C++ sources, one constructor for each `throw`, and the results of code
-- that may throw.
use cryptopeg.Prelude.{Bool, true, false}

pub data Error : Type 0 where
  -- types.hpp
  fee_rate_too_high odd_hex_length bad_hex_character bad_hex_byte : Error
  -- vault.cpp
  deposit_zero deposit_too_large deposit_deduction deposit_overflow deposit_invariant : Error
  withdraw_zero withdraw_too_large insufficient_supply withdraw_deduction vault_insolvent : Error
  withdraw_arithmetic withdraw_invariant : Error
  claim_zero claim_too_large bad_treasury_address insufficient_fee_pool : Error
  claim_arithmetic claim_invariant bps_too_high restore_inconsistent : Error
  -- No exception: a read outside a buffer, which C++ leaves undefined.
  out_of_bounds : Error
  -- serialization.hpp
  string_too_large read_past_end string_over_limit : Error
  -- block.cpp
  invalid_point ring_size_out_of_bounds ring_size_mismatch too_many_tx_outputs : Error
  too_many_quorum_signatures too_many_transactions too_many_deposits : Error
  too_many_withdrawals too_many_block_outputs : Error
  -- stealth.cpp
  bad_stealth_address shared_point_failed destination_failed derivation_failed : Error
  -- ring_signature.cpp
  no_point_of_key cofactor_failed key_image_failed burn_left_failed burn_right_failed : Error
  -- blockchain_db.cpp
  db_closed txn_begin_failed txn_commit_failed put_block_failed put_index_failed : Error
  put_image_failed put_utxo_failed put_deposit_failed put_height_failed put_vault_failed : Error
  -- node.cpp
  bad_key_image image_torsion_failed small_order_image double_spend bad_ring_member : Error
  repeated_ring_member unequal_ring_members unknown_ring_member empty_output : Error
  spent_overflow spent_mismatch wrong_transaction_hash invalid_ring_signature : Error

-- What a function that may throw gives back.
pub data Result {ℓ} (A : Type ℓ) : Type ℓ where
  err : Error → Result A
  ok : A → Result A

-- `if (bad) throw e;`
abbrev pub throw_if : Bool → Error → Result (Unit {0})
throw_if true e = err e
throw_if false e = ok tt

-- What follows a `throw` is not run.
infixl 5 ◌>>=◌
abbrev pub ◌>>=◌ {ℓ κ} : {A : Type ℓ} {B : Type κ} → Result A → (A → Result B) → Result B
err thrown >>= next = err thrown
ok value >>= next = next value

infixl 5 ◌>>◌
abbrev pub ◌>>◌ {ℓ} : {B : Type ℓ} → Result (Unit {0}) → Result B → Result B
first >> rest = first >>= λ done. rest
