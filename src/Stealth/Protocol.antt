-- ===== src/Stealth/Protocol.antt =====
-- src/stealth.cpp: sender and recipient of an output agree, under the laws of the group.
use cryptopeg.Prelude.{
  ℕ, ◌≡◌, ◌↔◌, ◌⊎◌, refl, true, Option, none, some, List, bytes_eq_iff, Option-cases, inl, inr,
}
use cryptopeg.Errors.{Error, ok, err}
use cryptopeg.Block.{OneTimeOutput}
use cryptopeg.Sodium.{Sodium}
use cryptopeg.Sodium.Group.{IsScalar, IsGroup}
use cryptopeg.Stealth.{
  StealthWallet, get_public_address, generate_random, ephemeral_secret, shared_scalar,
  create_one_time_output, matches, scan_shared, scan_output, derive_one_time_private_key,
}

module _ (sodium : Sodium) (group : IsGroup sodium) (a b : List ℕ) where
  -- The wallet with the spend key `a` and the view key `b`.
  abbrev wallet : StealthWallet
  wallet = generate_random sodium a b

  shared_reduced : (point : List ℕ) → IsScalar (shared_scalar sodium point)
  unfolding shared_scalar
  shared_reduced point = group.reduces (sodium.generichash 64 point)

  secret_reduced :
      (seed : Option (List ℕ)) (random : List ℕ)
      → IsScalar random
      → IsScalar (ephemeral_secret sodium seed random)
  unfolding ephemeral_secret
  secret_reduced none random drawn = drawn
  secret_reduced (some seed) random drawn = group.reduces (sodium.generichash 64 seed)

  -- Under the laws of the group, a wallet that `generate_random` made of reduced scalars recognizes an output exactly
  -- if it derives a private key for it of which the output's destination is the public key.
  pub scan_output_lem :
      (output : OneTimeOutput)
      → IsScalar a
      → (scan_output sodium wallet output ≡ true) ↔ (
          (x : List ℕ) × (derive_one_time_private_key sodium wallet output ≡ ok x)
          × (sodium.scalarmult_base x ≡ output.destination_one_time))
  unfolding scan_output scan_shared matches derive_one_time_private_key generate_random
  scan_output_lem output spend =
      elim (Option-cases (sodium.scalarmult b output.ephemeral_public_key)) [
        | inl failed ↦ rw failed (λ e. cc (e), λ t. cc (t.1))
        | inr (shared, found) ↦
            rw (found, group.base_add (shared_scalar sodium shared) a (shared_reduced shared) spend)
              (
                λ e. (
                  sodium.scalar_add (shared_scalar sodium shared) a,
                  refl,
                  (bytes_eq_iff _ _).0 e,
                ),
                λ t. (bytes_eq_iff _ _).1 (cc (t.1, t.2)),
              )
      ]

  -- Under the laws of the group, an output for the address of a wallet that `generate_random` made
  -- of reduced scalars, with a reduced random scalar, is refused only where the product of the secret and the view key fails. Otherwise it has the
  -- amount asked for, the wallet recognizes it, and derives a private key of which its destination
  -- is the public key: whether the secret came from a seed or was drawn.
  pub create_one_time_output_lem :
      (amount : ℕ) (seed : Option (List ℕ)) (random : List ℕ)
      → IsScalar a
      → IsScalar b
      → IsScalar random
      → let created =
          create_one_time_output sodium (get_public_address wallet) amount seed random in
        ((created ≡ err Error.shared_point_failed)
          × (sodium.scalarmult (ephemeral_secret sodium seed random) wallet.view_public_key ≡ none))
        ⊎ ((output : OneTimeOutput) × (created ≡ ok output)
            × (output.amount ≡ amount)
            × (scan_output sodium wallet output ≡ true)
            × ((x : List ℕ) × (derive_one_time_private_key sodium wallet output ≡ ok x)
                × (sodium.scalarmult_base x ≡ output.destination_one_time)))
  unfolding create_one_time_output get_public_address generate_random
  create_one_time_output_lem amount seed random spend view drawn =
      let r = ephemeral_secret sodium seed random in
      elim (Option-cases (sodium.scalarmult r (sodium.scalarmult_base b))) [
        | inl failed ↦ inl (rw failed refl, failed)
        | inr (shared, found) ↦
            let x = sodium.scalar_add (shared_scalar sodium shared) a in
            let output : OneTimeOutput = record {
              ephemeral_public_key = sodium.scalarmult_base r;
              destination_one_time = sodium.scalarmult_base x;
              amount = amount;
            } in
            let derived : derive_one_time_private_key sodium wallet output ≡ ok x =
              unfold derive_one_time_private_key in
              rw (group.exchange b r view (secret_reduced seed random drawn), found) refl in
            inr (
              output,
              rw
                  (
                    found,
                    group.base_add (shared_scalar sodium shared) a (shared_reduced shared) spend,
                  )
                  refl,
              refl,
              (scan_output_lem output spend).1 (x, derived, refl),
              (x, derived, refl),
            )
      ]
