-- ===== src/Node/Sample.antt =====
-- A node and a block with a deposit and a shielded transaction, for examples.
use cryptopeg.Prelude.{ℕ, refl, arith, true, List, [], ◌∷◌, ◌++◌, replicate}
use cryptopeg.Vault.{DepositReceipt}
use cryptopeg.Block.{OneTimeOutput, ShieldedTransaction, BlockHeader, Block, new_header, zero_key}
use cryptopeg.Block.Format.{IsSendable, IsTransaction, IsDeposit, IsPoint}
use cryptopeg.Sodium.Toy.{toy, odd_key, even_key}
use cryptopeg.Lmdb.Toy.{Pairs, association, sound}
use cryptopeg.Node.{Node}
use cryptopeg.Node.Apply.{Transactions}

abbrev pub nothing : Pairs
nothing = []

abbrev pub member : List ℕ
member = 1 ∷ replicate 31 0

abbrev pub output : List ℕ → ℕ → OneTimeOutput
output key amount = record {
  ephemeral_public_key = odd_key;
  destination_one_time = key;
  amount = amount;
}

abbrev pub node : Node toy association
node = record {
  db = record {
    is_open = true;
    tables = record {
      blocks = nothing;
      block_index = nothing;
      key_images = nothing;
      utxos = nothing;
      metadata = nothing;
      deposit_txs = nothing;
    };
    top_height = 0;
    top_hash = zero_key;
  };
  vault = record {
    total_collateral = 1000;
    circulating_supply = 995;
    fee_pool_reserve = 5;
    deposit_fee_bps = 50;
    withdraw_fee_bps = 50;
  };
  key_image_ledger = record { spent_images = [] };
  utxo_pool = output odd_key 312 ∷ output member 312 ∷ [];
  tx_history = [];
  has_validator_key = true;
  validator_secret_key = odd_key;
  validator_pubkey = odd_key;
  authorized_validators = odd_key ∷ [];
  validator_quorum_threshold = 1;
}

abbrev pub transaction : ShieldedTransaction
transaction = record {
  tx_hash = replicate 32 188;
  ring_sig = record {
    key_image = odd_key;
    c0 = even_key;
    responses = odd_key ∷ even_key ∷ [];
    ring_pubkeys = odd_key ∷ member ∷ [];
  };
  outputs = output even_key 300 ∷ [];
  public_fee = 12;
  timestamp = [];
}

abbrev pub receipt : DepositReceipt
receipt = record {
  gross_usdt_deposited = 1000;
  fee_to_pool = 5;
  net_shielded_tokens_minted = 995;
  tx_hash = b'0' ∷ [];
  recipient_view_pub = odd_key;
  recipient_spend_pub = even_key;
}

abbrev pub header : BlockHeader
header = record new_header {
  height = 1;
  merkle_root = replicate 32 68;
  quorum_pubkeys = odd_key ∷ [];
  quorum_signatures = (odd_key ++ replicate 32 96) ∷ [];
}

abbrev pub block : Block
block = record {
  header = header;
  txs = transaction ∷ [];
  deposits = receipt ∷ [];
  withdrawals = [];
  deposit_outputs = output odd_key 995 ∷ [];
  withdrawal_outputs = [];
}

abbrev pub transactions : Transactions
transactions = record { reading = sound; rolling = sound; committing = sound; restoring = sound }

odd_key-IsPoint : IsPoint toy.is_valid_point odd_key
odd_key-IsPoint = record { size = refl; valid = refl }

even_key-IsPoint : IsPoint toy.is_valid_point even_key
even_key-IsPoint = record { size = refl; valid = refl }

member-IsPoint : IsPoint toy.is_valid_point member
member-IsPoint = record { size = refl; valid = refl }

transaction-IsTransaction : IsTransaction toy.is_valid_point transaction
transaction-IsTransaction = record {
  hash = refl;
  ring_sig = record {
    image = odd_key-IsPoint;
    c0 = refl;
    some_keys = omega arith;
    few_keys = omega arith;
    paired = refl;
    responses = (refl, (refl, tt));
    ring = (odd_key-IsPoint, (member-IsPoint, tt));
  };
  few = omega arith;
  outputs = (
    record { ephemeral = odd_key-IsPoint; destination = even_key-IsPoint; amount = omega arith },
    tt,
  );
  fee = omega arith;
  time = omega arith;
}

receipt-IsDeposit : IsDeposit receipt
receipt-IsDeposit = record {
  gross = omega arith;
  fee = omega arith;
  net = omega arith;
  hash = omega arith;
  view = refl;
  spend = refl;
}

pub block-IsSendable : IsSendable toy.is_valid_point block
block-IsSendable = record {
  modern = omega arith;
  front = record {
    version = omega arith;
    height = omega arith;
    prev = refl;
    root = refl;
    time = omega arith;
    nonce = omega arith;
    key = refl;
    signature = refl;
  };
  quorum = record { few = omega arith; paired = refl; keys = (refl, tt); signatures = (refl, tt) };
  few_txs = omega arith;
  txs = (transaction-IsTransaction, tt);
  few_deposits = omega arith;
  deposits = (receipt-IsDeposit, tt);
  few_withdrawals = omega arith;
  withdrawals = tt;
  few_outputs = omega arith;
  deposit_outputs = (
    record { ephemeral = odd_key-IsPoint; destination = odd_key-IsPoint; amount = omega arith },
    tt,
  );
  few_changes = omega arith;
  withdrawal_outputs = tt;
}
