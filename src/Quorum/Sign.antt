-- ===== src/Quorum/Sign.antt =====
-- src/block.cpp: `BlockHeader::sign`, and that what it signs does not depend on who has signed.
use cryptopeg.Prelude.{
  ℕ, ◌≤◌, ◌≡◌, ◌∙◌, refl, true, false, arith, List, [], ◌∷◌, length, bytes_eq_refl, Bool-cases, inl,
  inr,
}
use cryptopeg.Block.{BlockHeader}
use cryptopeg.Sodium.{Sodium}
use cryptopeg.Quorum.{
  contains_key, all_zero, add_quorum_signature, signing_hash, sign, verify_signature, verify_quorum,
}
use cryptopeg.Quorum.Count.{verify_quorum_lem}

nonempty_of_contains : (ks : List (List ℕ)) (k : List ℕ) → contains_key ks k ≡ true → 1 ≤ length ks
unfolding contains_key
nonempty_of_contains [] k h = ground arith
nonempty_of_contains (j ∷ ks) k h = omega arith

module _ (sodium : Sodium) (h : BlockHeader) where
  signing_hash-add :
      (pk sig : List ℕ)
      → signing_hash sodium (add_quorum_signature h pk sig) ≡ signing_hash sodium h
  unfolding signing_hash add_quorum_signature
  signing_hash-add pk sig = elim (Bool-cases (contains_key h.quorum_pubkeys pk)) [
    | inl old ↦ rw old refl
    | inr new ↦ rw new refl
  ]

  verify_signature-add :
      (pk sig : List ℕ)
      → verify_signature sodium (add_quorum_signature h pk sig) ≡ verify_signature sodium h
  unfolding verify_signature signing_hash add_quorum_signature
  verify_signature-add pk sig = elim (Bool-cases (contains_key h.quorum_pubkeys pk)) [
    | inl old ↦ rw old refl
    | inr new ↦ rw new refl
  ]

  validator-add :
      (pk sig : List ℕ) → (add_quorum_signature h pk sig).validator_pubkey ≡ h.validator_pubkey
  unfolding add_quorum_signature
  validator-add pk sig = elim (Bool-cases (contains_key h.quorum_pubkeys pk)) [
    | inl old ↦ rw old refl
    | inr new ↦ rw new refl
  ]

module _ (sodium : Sodium) (secret_key pk : List ℕ)
    (pair : (message : List ℕ)
      → sodium.verify_detached (sodium.sign_detached message secret_key) message pk ≡ true) where
  -- A header signed with a pair of keys, of which the public one is not zero, verifies, whatever
  -- signatures it had before. It still has the hash that was signed, for others to sign, and it
  -- counts for the quorum of every set of keys that holds the key.
  pub sign_lem :
      (h : BlockHeader) (authorized : List (List ℕ))
      → all_zero pk ≡ false
      → contains_key authorized pk ≡ true
      → (signing_hash sodium (sign sodium h secret_key pk) ≡ signing_hash sodium h)
        × (verify_signature sodium (sign sodium h secret_key pk) ≡ true)
        × (1 ≤ verify_quorum sodium authorized (sign sodium h secret_key pk))
  unfolding sign
  sign_lem h authorized nonzero auth =
      let (keys, size, distinct, exact, few) = verify_quorum_lem sodium authorized whole in
      (
        signing_hash-add sodium signed pk signed.validator_signature ∙ unfold signing_hash in refl,
        valid,
        omega (
          arith,
          size,
          nonempty_of_contains keys pk (
              exact pk
              ∙ rw
                  (
                    auth,
                    valid,
                    validator-add sodium signed pk signed.validator_signature,
                    bytes_eq_refl pk,
                  )
                  refl),
        ),
      )
    where
      signed : BlockHeader
      signed = record h {
        validator_pubkey = pk;
        validator_signature = sodium.sign_detached (signing_hash sodium h) secret_key;
      }

      whole : BlockHeader
      whole = add_quorum_signature signed pk signed.validator_signature

      valid :
          verify_signature sodium (add_quorum_signature signed pk signed.validator_signature) ≡ true
      valid =
          verify_signature-add sodium signed pk signed.validator_signature
          ∙ unfold verify_signature signing_hash in rw (nonzero, pair) refl
