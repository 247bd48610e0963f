-- ===== src/Block/Sample.antt =====
-- A block with one entry of each kind, for examples.
use cryptopeg.Prelude.{ℕ, Bool, refl, true, arith, List, [], ◌∷◌, replicate}
use cryptopeg.Vault.{DepositReceipt, WithdrawalReceipt}
use cryptopeg.Block.{
  OneTimeOutput, ShieldedTransaction, BlockHeader, Block, new_header, zero_key, zero_signature,
}
use cryptopeg.Block.Format.{
  IsDeposit, IsWithdrawal, IsHeaderFront, IsQuorum, IsPoint, IsOutput, IsTransaction, IsSendable,
}

-- Every list is a point.
abbrev pub any_point : List ℕ → Bool
any_point k = true

abbrev pub key : List ℕ
key = replicate 32 7

abbrev pub output : OneTimeOutput
output = record { ephemeral_public_key = key; destination_one_time = zero_key; amount = 300 }

abbrev pub transaction : ShieldedTransaction
transaction = record {
  tx_hash = key;
  ring_sig = record {
    key_image = key;
    c0 = zero_key;
    responses = key ∷ [];
    ring_pubkeys = zero_key ∷ [];
  };
  outputs = output ∷ [];
  public_fee = 12;
  timestamp = b'n' ∷ b'o' ∷ b'w' ∷ [];
}

abbrev pub deposit : DepositReceipt
deposit = record {
  gross_usdt_deposited = 1000;
  fee_to_pool = 5;
  net_shielded_tokens_minted = 995;
  tx_hash = b'0' ∷ [];
  recipient_view_pub = key;
  recipient_spend_pub = key;
}

abbrev pub withdrawal : WithdrawalReceipt
withdrawal = record {
  gross_tokens_burned = 500;
  fee_to_pool = 2;
  net_usdt_to_tumble = 498;
  order_id = [];
  destination_address = b'0' ∷ b'x' ∷ [];
  key_image = key;
  burned_utxo_pubkey = key;
  burn_signature_c0 = key;
  burn_signature_s = key;
  change_output_pubkey = zero_key;
}

abbrev pub header : BlockHeader
header = record new_header {
  height = 3;
  nonce = 70_000;
  quorum_pubkeys = key ∷ [];
  quorum_signatures = zero_signature ∷ [];
}

abbrev pub block : Block
block = record {
  header = header;
  txs = transaction ∷ [];
  deposits = deposit ∷ [];
  withdrawals = withdrawal ∷ [];
  deposit_outputs = output ∷ [];
  withdrawal_outputs = [];
}

pub header-IsHeaderFront : IsHeaderFront header
header-IsHeaderFront = record {
  version = omega arith;
  height = omega arith;
  prev = refl;
  root = refl;
  time = omega arith;
  nonce = omega arith;
  key = refl;
  signature = refl;
}

pub header-IsQuorum : IsQuorum header
header-IsQuorum = record {
  few = omega arith;
  paired = refl;
  keys = (refl, tt);
  signatures = (refl, tt);
}

pub key-IsPoint : IsPoint any_point key
key-IsPoint = record { size = refl; valid = refl }

pub zero_key-IsPoint : IsPoint any_point zero_key
zero_key-IsPoint = record { size = refl; valid = refl }

pub output-IsOutput : IsOutput any_point output
output-IsOutput = record {
  ephemeral = key-IsPoint;
  destination = zero_key-IsPoint;
  amount = omega arith;
}

pub transaction-IsTransaction : IsTransaction any_point transaction
transaction-IsTransaction = record {
  hash = refl;
  ring_sig = record {
    image = key-IsPoint;
    c0 = refl;
    some_keys = omega arith;
    few_keys = omega arith;
    paired = refl;
    responses = (refl, tt);
    ring = (zero_key-IsPoint, tt);
  };
  few = omega arith;
  outputs = (output-IsOutput, tt);
  fee = omega arith;
  time = omega arith;
}

pub deposit-IsDeposit : IsDeposit deposit
deposit-IsDeposit = record {
  gross = omega arith;
  fee = omega arith;
  net = omega arith;
  hash = omega arith;
  view = refl;
  spend = refl;
}

pub withdrawal-IsWithdrawal : IsWithdrawal withdrawal
withdrawal-IsWithdrawal = record {
  gross = omega arith;
  fee = omega arith;
  net = omega arith;
  order = omega arith;
  destination = omega arith;
  image = refl;
  utxo = refl;
  c0 = refl;
  s = refl;
  change = refl;
}

pub block-IsSendable : IsSendable any_point block
block-IsSendable = record {
  modern = omega arith;
  front = header-IsHeaderFront;
  quorum = header-IsQuorum;
  few_txs = omega arith;
  txs = (transaction-IsTransaction, tt);
  few_deposits = omega arith;
  deposits = (deposit-IsDeposit, tt);
  few_withdrawals = omega arith;
  withdrawals = (withdrawal-IsWithdrawal, tt);
  few_outputs = omega arith;
  deposit_outputs = (output-IsOutput, tt);
  few_changes = omega arith;
  withdrawal_outputs = tt;
}
