-- ===== src/Stealth.antt =====
-- include/stealth.hpp and src/stealth.cpp: stealth addresses and their one-time outputs.
-- The scalars of `crypto_core_ed25519_scalar_random` are arguments.
pub mod Protocol
pub mod Address
mod Runs
use cryptopeg.Prelude.{
  ℕ, Bool, true, false, ◌&&◌, not, ◌==◌, Option, none, some, List, [], ◌∷◌, ◌++◌, take, drop,
  length, bytes_eq,
}
use cryptopeg.Errors.{Error, Result, ok, err, ◌>>=◌, ◌>>◌, throw_if}
use cryptopeg.Hex.{to_hex, from_hex}
use cryptopeg.Block.{OneTimeOutput}
use cryptopeg.Sodium.{Sodium}

pub record StealthAddress : Type 0 where
  pub spend_public_key : List ℕ
  pub view_public_key : List ℕ

pub record StealthWallet : Type 0 where
  pub spend_private_key : List ℕ
  pub spend_public_key : List ℕ
  pub view_private_key : List ℕ
  pub view_public_key : List ℕ

unfoldable pub get_public_address : StealthWallet → StealthAddress
get_public_address wallet = record {
  spend_public_key = wallet.spend_public_key;
  view_public_key = wallet.view_public_key;
}

-- "STX"
abbrev pub stx : List ℕ
stx = b'S' ∷ b'T' ∷ b'X' ∷ []

unfoldable pub encode : StealthAddress → List ℕ
encode address = stx ++ (to_hex address.spend_public_key ++ to_hex address.view_public_key)

-- 3 + 64 + 64 characters, the first of them "STX".
unfoldable pub decode : List ℕ → Result StealthAddress
decode encoded = do
  throw_if (not ((length encoded == 131) && bytes_eq (take 3 encoded) stx))
      Error.bad_stealth_address
  spend_bytes ← from_hex (take 64 (drop 3 encoded))
  view_bytes ← from_hex (take 64 (drop 67 encoded))
  ok (record { spend_public_key = take 32 spend_bytes; view_public_key = take 32 view_bytes })

-- A call of libsodium whose failure throws.
abbrev pub or_throw : Option (List ℕ) → Error → Result (List ℕ)
or_throw none e = err e
or_throw (some p) e = ok p

module _ (sodium : Sodium) where
  unfoldable pub generate_random : List ℕ → List ℕ → StealthWallet
  generate_random spend_scalar view_scalar = record {
    spend_private_key = spend_scalar;
    spend_public_key = sodium.scalarmult_base spend_scalar;
    view_private_key = view_scalar;
    view_public_key = sodium.scalarmult_base view_scalar;
  }

  -- The ephemeral secret: from the seed if there is one, and else the random scalar.
  unfoldable pub ephemeral_secret : Option (List ℕ) → List ℕ → List ℕ
  ephemeral_secret none random = random
  ephemeral_secret (some seed) random = sodium.scalar_reduce (sodium.generichash 64 seed)

  -- `S = H(rB)`, reduced to a scalar.
  unfoldable pub shared_scalar : List ℕ → List ℕ
  shared_scalar point = sodium.scalar_reduce (sodium.generichash 64 point)

  unfoldable pub create_one_time_output :
      StealthAddress → ℕ → Option (List ℕ) → List ℕ → Result OneTimeOutput
  create_one_time_output recipient amount seed random = do
    let r = ephemeral_secret seed random
    shared ← or_throw (sodium.scalarmult r recipient.view_public_key) Error.shared_point_failed
    let hash_point = sodium.scalarmult_base (shared_scalar shared)
    destination ←
        or_throw (sodium.point_add hash_point recipient.spend_public_key) Error.destination_failed
    ok (record {
      ephemeral_public_key = sodium.scalarmult_base r;
      destination_one_time = destination;
      amount = amount;
    })

  -- Whether the expected destination, if there is one, is the output's.
  unfoldable pub matches : Option (List ℕ) → OneTimeOutput → Bool
  matches none output = false
  matches (some expected) output = bytes_eq expected output.destination_one_time

  unfoldable pub scan_shared : StealthWallet → OneTimeOutput → Option (List ℕ) → Bool
  scan_shared wallet output none = false
  scan_shared wallet output (some shared) =
      matches
        (sodium.point_add (sodium.scalarmult_base (shared_scalar shared)) wallet.spend_public_key)
        output

  unfoldable pub scan_output : StealthWallet → OneTimeOutput → Bool
  scan_output wallet output =
      scan_shared wallet output
        (sodium.scalarmult wallet.view_private_key output.ephemeral_public_key)

  unfoldable pub derive_one_time_private_key : StealthWallet → OneTimeOutput → Result (List ℕ)
  derive_one_time_private_key wallet output = do
    shared ←
        or_throw (sodium.scalarmult wallet.view_private_key output.ephemeral_public_key)
          Error.derivation_failed
    ok (sodium.scalar_add (shared_scalar shared) wallet.spend_private_key)
