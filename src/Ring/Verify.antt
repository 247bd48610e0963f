-- ===== src/Ring/Verify.antt =====
-- src/ring_signature.cpp: `verify` on a ring of one key against `verify_burn_proof`, and the
-- exceptions of `verify`.
use cryptopeg.Prelude.{◌⊎◌, ℕ, ◌≡◌, refl, Option, none, some, List, [], ◌∷◌, Bool-cases, inl, inr}
use cryptopeg.Errors.{Error, Result, ok, err, ◌>>=◌}
use cryptopeg.Quorum.{contains_key}
use cryptopeg.Sodium.{Sodium}
use cryptopeg.Ring.{
  BurnProof, distinct_keys, next_challenge, verify_burn_proof, valid_points, walk_ring,
  is_well_formed, verify,
}

-- The step after the last key.
one_step :
    (r : Result (Option (List ℕ)))
    → (r >>= λ next. elim next [ none ↦ ok none | some c ↦ ok (some c) ]) ≡ r
one_step (err e) = refl
one_step (ok none) = refl
one_step (ok (some c)) = refl

module _ (sodium : Sodium) where
  -- A ring of one key is accepted exactly if its image, challenge and response prove the burn of the
  -- key; they throw the same exceptions.
  pub verify-verify_burn_proof :
      (message pubkey : List ℕ) (proof : BurnProof)
      → verify sodium message (record {
        key_image = proof.key_image;
        c0 = proof.c0;
        responses = proof.s ∷ [];
        ring_pubkeys = pubkey ∷ [];
      })
        ≡ verify_burn_proof sodium message pubkey proof
  unfolding verify is_well_formed valid_points distinct_keys contains_key walk_ring
      verify_burn_proof
  verify-verify_burn_proof message pubkey proof =
      rw (one_step (next_challenge sodium message proof.key_image proof.c0 pubkey proof.s))
        (elim (Bool-cases (sodium.is_valid_point proof.key_image)) [
          | inl image ↦ elim (Bool-cases (sodium.is_valid_point pubkey)) [
            | inl key ↦ rw (image, key) refl
            | inr bad ↦ rw (image, bad) refl
          ]
          | inr bad ↦ elim (Bool-cases (sodium.is_valid_point pubkey)) [
            | inl key ↦ rw (bad, key) refl
            | inr bad' ↦ rw (bad, bad') refl
          ]
        ])

  -- The exceptions of `hash_to_point`.
  abbrev pub IsPointError : Error → Type 0
  IsPointError e = (e ≡ Error.no_point_of_key) ⊎ (e ≡ Error.cofactor_failed)
