-- ===== src/Ring/Burn.antt =====
-- src/ring_signature.cpp: a proof of a burn that `sign_burn_proof` made is accepted, under the laws of
-- the group; and what the hash of a burn does not tell apart.
use mathlib.Core.List.{append_assoc}
use cryptopeg.Prelude.{ℕ, ◌≡◌, refl, ap, true, some, List, ◌++◌, bytes_eq_refl}
use cryptopeg.Errors.{ok}
use cryptopeg.Serial.{write_bytes}
use cryptopeg.Serial.Format.{u64_bytes, write_u64-append}
use cryptopeg.Sodium.{Sodium}
use cryptopeg.Sodium.Group.{IsScalar, IsGroup, eight}
use cryptopeg.Ring.{
  BurnProof, hash_to_point, compute_key_image, ring_hash_challenge, compute_burn_message_hash,
  sign_burn_proof, is_large_order, left_point, right_point, next_challenge, same_challenge,
  verify_burn_proof,
}

module _ (sodium : Sodium) (message privkey alpha : List ℕ) where
  -- The challenge of a burn, whose right point is given, and the response to it.
  abbrev pub challenge : List ℕ → List ℕ
  challenge right = ring_hash_challenge sodium message (sodium.scalarmult_base alpha) right

  abbrev pub response : List ℕ → List ℕ
  response right = sodium.scalar_sub alpha (sodium.scalar_mul (challenge right) privkey)

  -- The key and the random scalar are reduced. The products of signing and of verifying succeed, and the points are valid: no scalar among
  -- them is zero, and no point is of small order.
  pub record IsRegular (raw point image right : List ℕ) : Type 0 where
    pub key_scalar : IsScalar privkey
    pub alpha_scalar : IsScalar alpha
    pub hashed :
        sodium.from_uniform (sodium.generichash 32 (sodium.scalarmult_base privkey)) ≡ some raw
    pub cleared : sodium.scalarmult eight raw ≡ some point
    pub imaged : sodium.scalarmult privkey point ≡ some image
    pub drawn : sodium.scalarmult_base_ok alpha ≡ true
    pub righted : sodium.scalarmult alpha point ≡ some right
    pub valid_key : sodium.is_valid_point (sodium.scalarmult_base privkey) ≡ true
    pub valid_image : sodium.is_valid_point image ≡ true
    pub large : is_large_order sodium (sodium.scalarmult eight image) ≡ true
    pub responded : sodium.scalarmult_base_ok (response right) ≡ true
    pub key_product : List ℕ
    pub keyed :
        sodium.scalarmult (challenge right) (sodium.scalarmult_base privkey) ≡ some key_product
    pub point_product : List ℕ
    pub pointed : sodium.scalarmult (response right) point ≡ some point_product
    pub image_product : List ℕ
    pub challenged : sodium.scalarmult (challenge right) image ≡ some image_product

  module _ (group : IsGroup sodium) (raw point image right : List ℕ)
      (reg : IsRegular raw point image right) where
    challenge_reduced : (right : List ℕ) → IsScalar (challenge right)
    unfolding ring_hash_challenge
    challenge_reduced right = group.reduces _

    product_reduced : IsScalar (sodium.scalar_mul (challenge right) privkey)
    product_reduced =
        group.mul_reduced (challenge right) privkey (challenge_reduced right) reg.key_scalar

    left_lem :
        left_point sodium (response right) (challenge right) (sodium.scalarmult_base privkey)
        ≡ some (sodium.scalarmult_base alpha)
    unfolding left_point
    left_lem =
        rw
          (
            reg.responded,
            reg.keyed,
            group.base_mul (challenge right) privkey reg.key_product (challenge_reduced right)
                reg.key_scalar reg.keyed,
            group.base_sub alpha (sodium.scalar_mul (challenge right) privkey) reg.alpha_scalar
                product_reduced,
          )
          refl

    right_lem : right_point sodium (response right) (challenge right) point image ≡ some right
    unfolding right_point
    right_lem =
        rw (reg.pointed, reg.challenged)
          (group.point_sub alpha (sodium.scalar_mul (challenge right) privkey) raw point
            reg.point_product reg.image_product right reg.alpha_scalar product_reduced reg.cleared
            reg.pointed
            (group.point_mul (challenge right) privkey raw point image reg.image_product
              (challenge_reduced right) reg.key_scalar reg.cleared reg.imaged reg.challenged)
            reg.righted)

    hash_to_point_lem : hash_to_point sodium (sodium.scalarmult_base privkey) ≡ ok point
    unfolding hash_to_point
    hash_to_point_lem = rw (reg.hashed, reg.cleared) refl

    next_challenge_lem :
        next_challenge sodium message image
          (challenge right)
          (sodium.scalarmult_base privkey)
          (response right)
        ≡ ok (some (challenge right))
    unfolding next_challenge
    next_challenge_lem = rw (left_lem, next_challenge, hash_to_point_lem, right_lem) refl

    -- Under the laws of the group, where the key and the random scalar are reduced, every product of
    -- signing and of verifying succeeds, and the public key and its image are valid points, the image
    -- not of small order: a burn is signed with the
    -- image of the key, and the proof is accepted for the public key and the message it was made
    -- for.
    pub verify_burn_proof-sign_burn_proof :
        (proof : BurnProof) × (sign_burn_proof sodium message
            (sodium.scalarmult_base privkey)
            privkey
            alpha
          ≡ ok proof)
        × (proof.key_image ≡ image)
        × (verify_burn_proof sodium message (sodium.scalarmult_base privkey) proof ≡ ok true)
    unfolding sign_burn_proof compute_key_image verify_burn_proof same_challenge
    verify_burn_proof-sign_burn_proof = (
      record { key_image = image; c0 = challenge right; s = response right },
      rw (hash_to_point_lem, reg.imaged, reg.drawn, reg.righted) refl,
      refl,
      rw
          (
            reg.valid_key,
            reg.valid_image,
            reg.large,
            next_challenge_lem,
            bytes_eq_refl (challenge right),
          )
          refl,
    )

-- The hash of a burn joins the order, the amount and the destination with no lengths: an order with
-- an amount moved from its end is hashed like one whose destination has an amount before it.
pub burn_message_ambiguous :
    (sodium : Sodium) (order : List ℕ) (gross gross' : ℕ) (destination change : List ℕ)
    → compute_burn_message_hash sodium order gross (u64_bytes gross' ++ destination) change
      ≡ compute_burn_message_hash sodium (order ++ u64_bytes gross) gross' destination change
unfolding compute_burn_message_hash write_bytes
burn_message_ambiguous sodium order gross gross' destination change =
    ap (sodium.generichash 32) (simp (append_assoc, write_u64-append) refl)
