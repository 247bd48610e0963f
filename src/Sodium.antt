-- ===== src/Sodium.antt =====
-- The functions of libsodium that the sources call: parameters of the model.
-- A result `== 0` is `true`, or `some` of what the function writes where the sources do not use it
-- otherwise. The theorems that need more than this name what they assume.
pub mod Group
pub mod Toy
use cryptopeg.Prelude.{ℕ, Bool, Option, List}

pub record Sodium : Type 0 where
  -- `crypto_core_ed25519_is_valid_point`
  pub is_valid_point : List ℕ → Bool
  -- `crypto_generichash` of a message, with an output of so many bytes and no key
  pub generichash : ℕ → List ℕ → List ℕ
  -- `crypto_sign_detached` of a message by a secret key
  pub sign_detached : List ℕ → List ℕ → List ℕ
  -- `crypto_sign_verify_detached` of a signature, a message and a public key
  pub verify_detached : List ℕ → List ℕ → List ℕ → Bool
  -- `crypto_scalarmult_ed25519_noclamp` of a scalar and a point
  pub scalarmult : List ℕ → List ℕ → Option (List ℕ)
  -- what `crypto_scalarmult_ed25519_base_noclamp` writes for a scalar, and whether it returns 0
  pub scalarmult_base : List ℕ → List ℕ
  pub scalarmult_base_ok : List ℕ → Bool
  -- `crypto_core_ed25519_add`
  pub point_add : List ℕ → List ℕ → Option (List ℕ)
  -- `crypto_core_ed25519_from_uniform`
  pub from_uniform : List ℕ → Option (List ℕ)
  -- `crypto_core_ed25519_scalar_reduce`, `_add`, `_sub` and `_mul`
  pub scalar_reduce : List ℕ → List ℕ
  pub scalar_add : List ℕ → List ℕ → List ℕ
  pub scalar_sub : List ℕ → List ℕ → List ℕ
  pub scalar_mul : List ℕ → List ℕ → List ℕ
