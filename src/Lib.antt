-- ===== src/Lib.antt =====
-- A model of CryptoPeg, a confidential stablecoin in C++, and what holds of it.
--
-- The vault keeps the collateral and the supply of tokens. Blocks carry the deposits, withdrawals and
-- shielded transactions; validators sign their headers, and nodes exchange them in a wire format. A
-- withdrawal is paid out by the tumbler in fragments.
--
-- Which file models which part:
-- - Amount, Hex: include/types.hpp, the amounts with their checked arithmetic and fees, hexadecimal
--   text and EVM addresses. An amount is a natural number, with the wrap-around of `uint64_t` written
--   out where the source does not check; a `std::string` is the list of its bytes.
-- - Errors: the exceptions, one constructor for each `throw`, and results.
-- - Vault: include/vault.hpp and src/vault.cpp. A method of `Vault` takes the record of its balances
--   and returns its result with the record as it is then, after an exception too.
-- - Serial: include/serialization.hpp. `ByteWriter` is the list of bytes written, and a reader takes
--   the bytes left. `Serial.Cursor` has `ByteReader` with its buffer and its cursor,
--   and `Serial.BigEndian` the keys of heights.
-- - Block: the structures of include/block.hpp, include/stealth.hpp and include/ring_signature.hpp,
--   and from src/block.cpp the `serialize_` functions (`Block.Encode`) and the `deserialize_`
--   functions (`Block.Decode`), with the name of the function each. `Block.Format` states the wire
--   format and the blocks that can be sent.
-- - Quorum: src/block.cpp, the methods of `BlockHeader`.
-- - Merkle: src/block.cpp, `Block::compute_merkle_root` and `Block::create_genesis`. The loop over
--   the levels has fuel, the number of leaves less one, since each level has fewer hashes than the
--   one below.
-- - Stealth: include/stealth.hpp and src/stealth.cpp, addresses and one-time outputs. Random scalars
--   are arguments.
-- - Ring: src/ring_signature.cpp, the functions of `RingSignatureEngine` but `sign`. `next_challenge`
--   is the step that the loop of `verify` and `verify_burn_proof` have in common.
-- - KeyImages: `KeyImageLedger` of src/ring_signature.cpp, and `canonical_key_image` of
--   include/types.hpp. The set is a list without repetitions.
-- - Tumbler: include/tumbler.hpp and src/tumbler.cpp. What the random generators and the
--   floating-point weights give is the record `Draws`.
-- - Database: src/blockchain_db.cpp, `BlockchainDB`. The readers are in Database itself, `commit_block` in
--   `Database.Commit` and `rollback_top_block` in `Database.Rollback`. `Database.Contents` has the
--   images and the outputs of a block as the node passes them to `commit_block`.
-- - Node: include/node.hpp and src/node.cpp, the state of a node, `recover_state_from_db` and
--   `apply_remote_block` with its helpers: `Node.Fork` is the choice between two blocks of one height,
--   `Node.Header`, `Node.Deposits`, `Node.Transfers` and `Node.Burns` are the checks in their order, and
--   `Node.Apply` is the whole method with `ReorgGuard`. `Node.Submit` is `submit_pre_signed_transaction`
--   and `Node.Treasury` is `claim_treasury_fees`. A refusal is a constructor of `Refusal` for
--   each message of the method.
-- - Sodium: the functions of libsodium that these parts call, as parameters. `Sodium.Group`
--   states the laws of the curve, for reduced scalars, that some theorems assume, and `Sodium.Toy` has concrete functions
--   for examples, with a proof of these laws.
-- - Lmdb: the calls of LMDB on a table, and how a transaction begins and ends, as parameters.
--   `Lmdb` states the laws of a table that some theorems assume, and as `NeverFull` the condition that
--   no call runs out of space; `Lmdb.Toy` has association lists that satisfy them.
--
-- How the parts interact: a node keeps in memory a vault, a ledger of key images and the pool of
-- outputs, all of which the database stores too. `apply_remote_block` checks a block against a copy of
-- the vault, takes its effects into memory and commits it to the database, and reads the memory again
-- from there after a failure. A block that competes with the top replaces it after a rollback, or the
-- old top is committed again.
--
-- After `mdb_txn_commit` failed, `commit_block` aborts the transaction that is freed already, which is
-- undefined; the model takes that to do nothing.
--
-- Not modelled: `RingSignatureEngine::sign`, the methods of the node that build a deposit, a transfer or a
-- withdrawal themselves, the opening and closing of the
-- database, the network (src/p2p.cpp), the mnemonics, commitments and wallets, the HTTP and
-- command-line front ends, the bindings, the contracts and the web client. Memory is never exhausted,
-- the mutexes make each method of the vault and of the node one step, and the wiping of secrets, the
-- callbacks and what is printed are left out.
pub mod Amount
pub mod Block
pub mod Database
pub mod Errors
pub mod Hex
pub mod KeyImages
pub mod Lmdb
pub mod Merkle
pub mod Node
pub mod Prelude
pub mod Quorum
pub mod Ring
pub mod Serial
pub mod Sodium
pub mod Stealth
pub mod Tumbler
pub mod Vault
