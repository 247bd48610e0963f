-- ===== src/Vault.antt =====
-- include/vault.hpp and src/vault.cpp: the vault's balances and the operations on them.
-- A method takes the vault and returns its result with the vault as it is then; after a `throw`
-- too, since what was assigned before stays assigned. The mutex makes each method one step.
-- The bytes of `randombytes_buf` are an argument.
pub mod Solvency
pub mod Restore
pub mod History
mod Runs
use cryptopeg.Prelude.{
  ℕ, ◌+◌, ◌-◌, ◌%◌, ◌^◌, Bool, true, false, ◌||◌, not, Option, none, some, List, [], ◌∷◌, ltb, ◌==◌,
  if◌then◌else◌, replicate,
}
use cryptopeg.Errors.{Error, Result, ok, err}
use cryptopeg.Errors
use cryptopeg.Amount.{safe_add_amount, safe_sub_amount, safe_fee_calc, max_transaction_amount}
use cryptopeg.Hex.{to_hex, is_valid_evm_address}

pub record DepositReceipt : Type 0 where
  pub gross_usdt_deposited : ℕ
  pub fee_to_pool : ℕ
  pub net_shielded_tokens_minted : ℕ
  pub tx_hash : List ℕ
  pub recipient_view_pub : List ℕ
  pub recipient_spend_pub : List ℕ

pub record WithdrawalReceipt : Type 0 where
  pub gross_tokens_burned : ℕ
  pub fee_to_pool : ℕ
  pub net_usdt_to_tumble : ℕ
  pub order_id : List ℕ
  pub destination_address : List ℕ
  pub key_image : List ℕ
  pub burned_utxo_pubkey : List ℕ
  pub burn_signature_c0 : List ℕ
  pub burn_signature_s : List ℕ
  pub change_output_pubkey : List ℕ

pub record ClaimReceipt : Type 0 where
  pub amount_claimed : ℕ
  pub remaining_fee_pool : ℕ
  pub destination_address : List ℕ
  pub tx_hash : List ℕ

pub record Vault : Type 0 where
  pub total_collateral : ℕ
  pub circulating_supply : ℕ
  pub fee_pool_reserve : ℕ
  pub deposit_fee_bps : ℕ
  pub withdraw_fee_bps : ℕ

-- The constructor (`sodium_init` succeeds).
unfoldable pub new_vault : ℕ → ℕ → Vault
new_vault deposit_bps withdraw_bps = record {
  total_collateral = 0;
  circulating_supply = 0;
  fee_pool_reserve = 0;
  deposit_fee_bps = deposit_bps;
  withdraw_fee_bps = withdraw_bps;
}

-- A method of the vault.
abbrev pub Action : Type 0 → Type 0
Action A = Vault → Result A × Vault

infixl 5 ◌>>=◌ ◌>>◌
abbrev pub ◌>>=◌ : {A B : Type 0} → Action A → (A → Action B) → Action B
◌>>=◌ m f v = let (r, v') = m v in elim r [ ok a ↦ f a v' | err e ↦ (err e, v') ]

abbrev pub ◌>>◌ : {A B : Type 0} → Action A → Action B → Action B
first >> rest = first >>= λ done. rest

abbrev pub pure : {A : Type 0} → A → Action A
pure a v = (ok a, v)

abbrev pub get : Action Vault
get v = (ok v, v)

abbrev pub put : Vault → Action (Unit {0})
put v' v = (ok tt, v')

abbrev pub throw_if : Bool → Error → Action (Unit {0})
throw_if c e v = (Errors.throw_if c e, v)

abbrev pub lift : {A : Type 0} → Result A → Action A
lift r v = (r, v)

-- A checked operation whose failure throws.
abbrev pub or_throw : Option ℕ → Error → Action ℕ
or_throw none e v = (err e, v)
or_throw (some a) e v = (ok a, v)

-- `total_collateral_ == (circulating_supply_ + fee_pool_reserve_)`, the sum of two `uint64_t`.
unfoldable pub audit_solvency : Vault → Bool
audit_solvency v = v.total_collateral == (v.circulating_supply + v.fee_pool_reserve) % 2 ^ 64

-- "0x"
abbrev pub hex_prefix : List ℕ
hex_prefix = b'0' ∷ b'x' ∷ []

abbrev zero_key : List ℕ
zero_key = replicate 32 0

-- `if (!custom_tx_hash.empty())` the receipt has that hash, and else a random one.
unfoldable pub receipt_hash : List ℕ → List ℕ → List ℕ
unfolding to_hex
receipt_hash [] random = b'0' ∷ b'x' ∷ to_hex random
receipt_hash (c ∷ custom) random = c ∷ custom

unfoldable pub deposit : ℕ → List ℕ → List ℕ → Action DepositReceipt
unfolding safe_add_amount safe_sub_amount audit_solvency
deposit usdt_gross custom_tx_hash random = do
  throw_if (usdt_gross == 0) Error.deposit_zero
  throw_if (ltb max_transaction_amount usdt_gross) Error.deposit_too_large
  v ← get
  fee ← lift (safe_fee_calc usdt_gross v.deposit_fee_bps)
  net_minted ← or_throw (safe_sub_amount usdt_gross fee) Error.deposit_deduction
  new_collateral ← or_throw (safe_add_amount v.total_collateral usdt_gross) Error.deposit_overflow
  new_circulating ←
      or_throw (safe_add_amount v.circulating_supply net_minted) Error.deposit_overflow
  new_fee_pool ← or_throw (safe_add_amount v.fee_pool_reserve fee) Error.deposit_overflow
  let v' : Vault = record v {
    total_collateral = new_collateral;
    circulating_supply = new_circulating;
    fee_pool_reserve = new_fee_pool;
  }
  put v'
  throw_if (not (audit_solvency v')) Error.deposit_invariant
  pure (record {
    gross_usdt_deposited = usdt_gross;
    fee_to_pool = fee;
    net_shielded_tokens_minted = net_minted;
    tx_hash = receipt_hash custom_tx_hash random;
    recipient_view_pub = zero_key;
    recipient_spend_pub = zero_key;
  })

-- "ORD-"
abbrev pub order_prefix : List ℕ → List ℕ
order_prefix id = b'O' ∷ b'R' ∷ b'D' ∷ b'-' ∷ id

unfoldable pub request_withdrawal : ℕ → List ℕ → Action WithdrawalReceipt
unfolding safe_add_amount safe_sub_amount audit_solvency
request_withdrawal tokens_gross order_bytes = do
  throw_if (tokens_gross == 0) Error.withdraw_zero
  throw_if (ltb max_transaction_amount tokens_gross) Error.withdraw_too_large
  v ← get
  throw_if (ltb v.circulating_supply tokens_gross) Error.insufficient_supply
  fee ← lift (safe_fee_calc tokens_gross v.withdraw_fee_bps)
  net_usdt ← or_throw (safe_sub_amount tokens_gross fee) Error.withdraw_deduction
  throw_if (ltb v.total_collateral net_usdt) Error.vault_insolvent
  new_circulating ←
      or_throw (safe_sub_amount v.circulating_supply tokens_gross) Error.withdraw_arithmetic
  new_collateral ← or_throw (safe_sub_amount v.total_collateral net_usdt) Error.withdraw_arithmetic
  new_fee_pool ← or_throw (safe_add_amount v.fee_pool_reserve fee) Error.withdraw_arithmetic
  let v' : Vault = record v {
    circulating_supply = new_circulating;
    total_collateral = new_collateral;
    fee_pool_reserve = new_fee_pool;
  }
  put v'
  throw_if (not (audit_solvency v')) Error.withdraw_invariant
  pure (record {
    gross_tokens_burned = tokens_gross;
    fee_to_pool = fee;
    net_usdt_to_tumble = net_usdt;
    order_id = order_prefix (to_hex order_bytes);
    destination_address = [];
    key_image = zero_key;
    burned_utxo_pubkey = zero_key;
    burn_signature_c0 = zero_key;
    burn_signature_s = zero_key;
    change_output_pubkey = zero_key;
  })

unfoldable pub claim_fees : ℕ → List ℕ → List ℕ → Action ClaimReceipt
unfolding safe_sub_amount audit_solvency
claim_fees amount_to_claim destination_address tx_bytes = do
  throw_if (amount_to_claim == 0) Error.claim_zero
  throw_if (ltb max_transaction_amount amount_to_claim) Error.claim_too_large
  throw_if (not (is_valid_evm_address destination_address)) Error.bad_treasury_address
  v ← get
  throw_if (ltb v.fee_pool_reserve amount_to_claim) Error.insufficient_fee_pool
  new_collateral ←
      or_throw (safe_sub_amount v.total_collateral amount_to_claim) Error.claim_arithmetic
  new_fee_pool ←
      or_throw (safe_sub_amount v.fee_pool_reserve amount_to_claim) Error.claim_arithmetic
  let v' : Vault = record v { total_collateral = new_collateral; fee_pool_reserve = new_fee_pool }
  put v'
  throw_if (not (audit_solvency v')) Error.claim_invariant
  pure (record {
    amount_claimed = amount_to_claim;
    remaining_fee_pool = new_fee_pool;
    destination_address = destination_address;
    tx_hash = b'0' ∷ b'x' ∷ to_hex tx_bytes;
  })

unfoldable pub set_fee_bps : ℕ → ℕ → Action (Unit {0})
set_fee_bps deposit_bps withdraw_bps = do
  throw_if (ltb 1000 deposit_bps || ltb 1000 withdraw_bps) Error.bps_too_high
  v ← get
  put (record v { deposit_fee_bps = deposit_bps; withdraw_fee_bps = withdraw_bps })

-- The balances are assigned before the test.
unfoldable pub restore_state : ℕ → ℕ → ℕ → Action (Unit {0})
unfolding audit_solvency
restore_state collateral circulating fee_pool = do
  v ← get
  let v' : Vault = record v {
    total_collateral = collateral;
    circulating_supply = circulating;
    fee_pool_reserve = fee_pool;
  }
  put v'
  throw_if (not (audit_solvency v')) Error.restore_inconsistent
