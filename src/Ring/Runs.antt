-- ===== src/Ring/Runs.antt =====
-- Runs of the ring signatures with the examples for libsodium's functions, and their theorems at
-- concrete inputs.
use cryptopeg.Prelude.{none, ℕ, ◌≡◌, refl, true, false, List, [], ◌∷◌, ◌++◌, replicate, bytes_eq}
use cryptopeg.Errors.{ok}
use cryptopeg.Serial.Format.{u64_bytes}
use cryptopeg.Block.{RingSignature}
use cryptopeg.Quorum.{contains_key}
use cryptopeg.Sodium.{Sodium}
use cryptopeg.Sodium.Toy.{toy, odd_key, even_key, toy-IsGroup, odd_key-IsScalar}
use cryptopeg.Ring.{
  BurnProof, distinct_keys, hash_to_point, ring_hash_challenge, compute_burn_message_hash,
  sign_burn_proof, is_large_order, left_point, right_point, next_challenge, same_challenge,
  verify_burn_proof, valid_points, walk_ring, is_well_formed, verify,
}
use cryptopeg.Ring.Burn.{IsRegular, verify_burn_proof-sign_burn_proof, burn_message_ambiguous}
use cryptopeg.Ring.Verify.{verify-verify_burn_proof}

abbrev one : List ℕ
one = odd_key

abbrev other : List ℕ
other = 1 ∷ replicate 31 0

abbrev message : List ℕ
message = replicate 3 0

-- Two keys; every challenge of these examples is the same.
abbrev signature : RingSignature
signature = record {
  key_image = one;
  c0 = one;
  responses = one ∷ other ∷ [];
  ring_pubkeys = one ∷ other ∷ [];
}

abbrev burn : BurnProof
burn = record { key_image = one; c0 = one; s = other }

verify_run : verify toy message signature ≡ ok true
unfolding verify is_well_formed valid_points distinct_keys contains_key bytes_eq is_large_order
    walk_ring next_challenge left_point right_point hash_to_point ring_hash_challenge same_challenge
verify_run = refl

-- The same key twice.
repeated_run : verify toy message (record signature { ring_pubkeys = one ∷ one ∷ [] }) ≡ ok false
unfolding verify is_well_formed valid_points distinct_keys contains_key bytes_eq
repeated_run = refl

one-IsRegular : IsRegular toy message one one (replicate 32 36) one one one
unfolding is_large_order ring_hash_challenge bytes_eq
one-IsRegular = record {
  key_scalar = odd_key-IsScalar;
  alpha_scalar = odd_key-IsScalar;
  hashed = refl;
  cleared = refl;
  imaged = refl;
  drawn = refl;
  righted = refl;
  valid_key = refl;
  valid_image = refl;
  large = refl;
  responded = refl;
  key_product = one;
  keyed = refl;
  point_product = even_key;
  pointed = refl;
  image_product = one;
  challenged = refl;
}

verify_burn_proof-sign_burn_proof_example :
    (proof : BurnProof) × (sign_burn_proof toy message one one one ≡ ok proof)
    × (proof.key_image ≡ one)
    × (verify_burn_proof toy message one proof ≡ ok true)
verify_burn_proof-sign_burn_proof_example =
    verify_burn_proof-sign_burn_proof toy message one one toy-IsGroup (replicate 32 36) one one one
      one-IsRegular

verify-verify_burn_proof_example :
    verify toy message
      (record { key_image = one; c0 = one; responses = other ∷ []; ring_pubkeys = one ∷ [] })
    ≡ verify_burn_proof toy message one burn
verify-verify_burn_proof_example = verify-verify_burn_proof toy message one burn

-- Where no digest is a point.
abbrev pointless : Sodium
pointless = record toy { from_uniform = λ bytes. none }

burn_message_ambiguous_example :
    compute_burn_message_hash toy (1 ∷ []) 5 (u64_bytes 7 ++ (2 ∷ [])) (3 ∷ [])
    ≡ compute_burn_message_hash toy ((1 ∷ []) ++ u64_bytes 5) 7 (2 ∷ []) (3 ∷ [])
burn_message_ambiguous_example = burn_message_ambiguous toy (1 ∷ []) 5 7 (2 ∷ []) (3 ∷ [])
