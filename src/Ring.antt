-- ===== src/Ring.antt =====
-- include/types.hpp, include/ring_signature.hpp and src/ring_signature.cpp: the proofs of burns, the
-- verification of ring signatures, and the hashes that they sign. The scalars of
-- `crypto_core_ed25519_scalar_random` are arguments; secrets are not wiped.
pub mod Burn
pub mod Verify
mod Runs
use cryptopeg.Prelude.{
  ℕ, Bool, true, false, ◌&&◌, not, Option, none, some, List, [], ◌∷◌, ◌++◌, ◌==◌, if◌then◌else◌,
  length, replicate, bytes_eq,
}
use cryptopeg.Errors.{Error, Result, ok, err, ◌>>=◌}
use cryptopeg.Serial.{write_u32, write_u64, write_bytes, write_all}
use cryptopeg.Block.{OneTimeOutput, RingSignature}
use cryptopeg.Block.Encode.{count}
use cryptopeg.Stealth.{or_throw}
use cryptopeg.Quorum.{contains_key}
use cryptopeg.Sodium.{Sodium}
use cryptopeg.Sodium.Group.{eight}

-- The encoding of the neutral point.
abbrev pub ed25519_identity : List ℕ
ed25519_identity = 1 ∷ replicate 31 0

-- "BURN_PROOF_V2"
abbrev pub burn_tag : List ℕ
burn_tag =
    b'B' ∷ b'U' ∷ b'R' ∷ b'N' ∷ b'_' ∷ b'P' ∷ b'R' ∷ b'O' ∷ b'O' ∷ b'F' ∷ b'_' ∷ b'V' ∷ b'2' ∷ []

-- An output in the hash of a transaction.
unfoldable pub hashed_output : List ℕ → OneTimeOutput → List ℕ
hashed_output w out =
    let w₁ = write_bytes w out.destination_one_time in
    let w₂ = write_bytes w₁ out.ephemeral_public_key in write_u64 w₂ out.amount

-- A product or a sum of `verify`, whose failure makes the signature invalid.
abbrev pub and_then : Option (List ℕ) → (List ℕ → Option (List ℕ)) → Option (List ℕ)
and_then none f = none
and_then (some p) f = f p

-- Whether no key stands twice: the loops over `i` and `j`.
unfoldable pub distinct_keys : List (List ℕ) → Bool
distinct_keys [] = true
distinct_keys (k ∷ ks) = not (contains_key ks k) && distinct_keys ks

-- Burn proofs: an image of the key, a challenge and a response.
pub record BurnProof : Type 0 where
  pub key_image : List ℕ
  pub c0 : List ℕ
  pub s : List ℕ

module _ (sodium : Sodium) where
  unfoldable pub hash_to_point : List ℕ → Result (List ℕ)
  hash_to_point pubkey = do
    p_raw ← or_throw (sodium.from_uniform (sodium.generichash 32 pubkey)) Error.no_point_of_key
    or_throw (sodium.scalarmult eight p_raw) Error.cofactor_failed

  unfoldable pub compute_key_image : List ℕ → List ℕ → Result (List ℕ)
  compute_key_image privkey pubkey = do
    point ← hash_to_point pubkey
    or_throw (sodium.scalarmult privkey point) Error.key_image_failed

  unfoldable pub ring_hash_challenge : List ℕ → List ℕ → List ℕ → List ℕ
  ring_hash_challenge message left right =
      sodium.scalar_reduce (sodium.generichash 64 (message ++ (left ++ right)))

  -- The state of `crypto_generichash` is the bytes hashed so far; the machine is little-endian.
  unfoldable pub compute_canonical_tx_hash :
      List OneTimeOutput → ℕ → List (List ℕ) → List ℕ → List ℕ
  compute_canonical_tx_hash outputs public_fee ring_pubkeys key_image =
      let w₁ = write_u32 [] (count outputs) in
      let w₂ = write_all hashed_output w₁ outputs in
      let w₃ = write_u64 w₂ public_fee in
      let w₄ = write_u32 w₃ (count ring_pubkeys) in
      let w₅ = write_all write_bytes w₄ ring_pubkeys in
      sodium.generichash 32 (write_bytes w₅ key_image)

  unfoldable pub compute_burn_message_hash : List ℕ → ℕ → List ℕ → List ℕ → List ℕ
  compute_burn_message_hash order_id gross_burned destination_address change_output_pubkey =
      let w₁ = write_bytes burn_tag order_id in
      let w₂ = write_u64 w₁ gross_burned in
      let w₃ = write_bytes w₂ destination_address in
      sodium.generichash 32 (write_bytes w₃ change_output_pubkey)

  unfoldable pub sign_burn_proof : List ℕ → List ℕ → List ℕ → List ℕ → Result BurnProof
  sign_burn_proof message pubkey privkey alpha = do
    key_image ← compute_key_image privkey pubkey
    left ←
        or_throw
          (if sodium.scalarmult_base_ok alpha then some (sodium.scalarmult_base alpha) else none)
          Error.burn_left_failed
    point ← hash_to_point pubkey
    right ← or_throw (sodium.scalarmult alpha point) Error.burn_right_failed
    let c0 = ring_hash_challenge message left right
    ok (record {
      key_image = key_image;
      c0 = c0;
      s = sodium.scalar_sub alpha (sodium.scalar_mul c0 privkey);
    })

  -- 8 I is a point other than the neutral one.
  unfoldable pub is_large_order : Option (List ℕ) → Bool
  is_large_order none = false
  is_large_order (some image8) = not (bytes_eq image8 ed25519_identity)

  -- `s * G + c * P`
  unfoldable pub left_point : List ℕ → List ℕ → List ℕ → Option (List ℕ)
  left_point s c pubkey =
      if sodium.scalarmult_base_ok s
      then and_then (sodium.scalarmult c pubkey)
          (λ cp. sodium.point_add (sodium.scalarmult_base s) cp)
      else none

  -- `s * H_p(P) + c * I`
  unfoldable pub right_point : List ℕ → List ℕ → List ℕ → List ℕ → Option (List ℕ)
  right_point s c point key_image =
      and_then (sodium.scalarmult s point)
        (λ sp. and_then (sodium.scalarmult c key_image) (λ ci. sodium.point_add sp ci))

  -- The next challenge of a key and its response; `none` makes the signature invalid, and
  -- `hash_to_point` may throw.
  unfoldable pub next_challenge :
      List ℕ → List ℕ → List ℕ → List ℕ → List ℕ → Result (Option (List ℕ))
  next_challenge message key_image c pubkey s = elim (left_point s c pubkey) [
    | none ↦ ok none
    | some left ↦ do
      point ← hash_to_point pubkey
      ok (
          and_then (right_point s c point key_image)
            (λ right. some (ring_hash_challenge message left right)))
  ]

  unfoldable pub same_challenge : List ℕ → Option (List ℕ) → Bool
  same_challenge c none = false
  same_challenge c (some c') = bytes_eq c c'

  unfoldable pub verify_burn_proof : List ℕ → List ℕ → BurnProof → Result Bool
  verify_burn_proof message pubkey proof =
      if sodium.is_valid_point pubkey
        && (sodium.is_valid_point proof.key_image
            && is_large_order (sodium.scalarmult eight proof.key_image))
      then (next_challenge message proof.key_image proof.c0 pubkey proof.s >>= λ c.
          ok (same_challenge proof.c0 c))
      else ok false

  unfoldable pub valid_points : List (List ℕ) → Bool
  valid_points [] = true
  valid_points (k ∷ ks) = sodium.is_valid_point k && valid_points ks

  -- The loop around the ring.
  unfoldable pub walk_ring :
      List ℕ → List ℕ → List ℕ → List (List ℕ) → List (List ℕ) → Result (Option (List ℕ))
  walk_ring message key_image c [] responses = ok (some c)
  walk_ring message key_image c (pk ∷ pks) [] = err Error.out_of_bounds
  walk_ring message key_image c (pk ∷ pks) (s ∷ responses) = do
    next ← next_challenge message key_image c pk s
    elim next [ none ↦ ok none | some c' ↦ walk_ring message key_image c' pks responses ]

  -- The tests of `verify` before the loop.
  unfoldable pub is_well_formed : RingSignature → Bool
  is_well_formed sig =
      (not (length sig.ring_pubkeys == 0) && (length sig.responses == length sig.ring_pubkeys))
      && (sodium.is_valid_point sig.key_image
          && (valid_points sig.ring_pubkeys
              && (distinct_keys sig.ring_pubkeys
                  && is_large_order (sodium.scalarmult eight sig.key_image))))

  unfoldable pub verify : List ℕ → RingSignature → Result Bool
  verify message sig =
      if is_well_formed sig
      then (walk_ring message sig.key_image sig.c0 sig.ring_pubkeys sig.responses >>= λ c.
          ok (same_challenge sig.c0 c))
      else ok false
