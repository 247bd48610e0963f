-- ===== src/Quorum/Count.antt =====
-- src/block.cpp: what `verify_quorum` counts.
use cryptopeg.Prelude.{
  ℕ, ◌+◌, ◌≤◌, ◌≡◌, refl, ap, ◌∙◌, Bool, true, false, ◌&&◌, ◌||◌, arith, List, [], ◌∷◌, ◌++◌,
  length, bytes_eq, bytes_eq_iff, bytes_eq_refl, if◌then◌else◌, inl, inr, Bool-cases,
}
use cryptopeg.Block.{BlockHeader}
use cryptopeg.Sodium.{Sodium}
use cryptopeg.Quorum.{
  contains_key, signing_hash, verify_signature, count_entry, count_entries, count_validator,
  verified_keys, verify_quorum,
}

-- No key twice.
abbrev pub IsDistinct : List (List ℕ) → Type 0
IsDistinct [] = Unit
IsDistinct (k ∷ ks) = (contains_key ks k ≡ false) × IsDistinct ks

contains_key-append :
    (ks : List (List ℕ)) (k pk : List ℕ)
    → contains_key (ks ++ (k ∷ [])) pk ≡ (if contains_key ks pk then true else bytes_eq k pk)
unfolding contains_key
contains_key-append [] k pk = ground arith
contains_key-append (j ∷ ks) k pk = ground (arith, contains_key-append ks k pk)

bytes_eq_comm : (j k : List ℕ) → bytes_eq j k ≡ bytes_eq k j
bytes_eq_comm j k = ground (arith, bytes_eq_iff j k, bytes_eq_iff k j)

append-IsDistinct :
    (ks : List (List ℕ)) (k : List ℕ)
    → IsDistinct ks
    → contains_key ks k ≡ false
    → IsDistinct (ks ++ (k ∷ []))
unfolding contains_key
append-IsDistinct [] k d new = (refl, tt)
append-IsDistinct (j ∷ ks) k d new =
    ground (arith, append-IsDistinct ks k d.1, contains_key-append ks k j, bytes_eq_comm j k)

contains_key_eq :
    (ks : List (List ℕ)) (j k : List ℕ) → j ≡ k → contains_key ks j ≡ contains_key ks k
contains_key_eq ks j k e = ap (contains_key ks) e

-- Whether `key` stands in the lists with a valid signature of the hash.
unfoldable pub endorses : Sodium → List ℕ → List (List ℕ) → List (List ℕ) → List ℕ → Bool
endorses sodium hash [] sigs key = false
endorses sodium hash (pk ∷ pks) [] key = false
endorses sodium hash (pk ∷ pks) (sig ∷ sigs) key =
    (bytes_eq pk key && sodium.verify_detached sig hash key) || endorses sodium hash pks sigs key

module _ (sodium : Sodium) (authorized : List (List ℕ)) (hash : List ℕ) where
  count_entry-IsDistinct :
      (verified : List (List ℕ)) (pk sig : List ℕ)
      → IsDistinct verified
      → IsDistinct (count_entry sodium authorized hash verified pk sig)
  unfolding count_entry
  count_entry-IsDistinct verified pk sig d = ground (arith, append-IsDistinct verified pk d)

  count_entries-IsDistinct :
      (verified pks sigs : List (List ℕ))
      → IsDistinct verified
      → IsDistinct (count_entries sodium authorized hash verified pks sigs)
  unfolding count_entries
  count_entries-IsDistinct verified [] sigs d = d
  count_entries-IsDistinct verified (pk ∷ pks) [] d = d
  count_entries-IsDistinct verified (pk ∷ pks) (sig ∷ sigs) d =
      count_entries-IsDistinct (count_entry sodium authorized hash verified pk sig) pks sigs
        (count_entry-IsDistinct verified pk sig d)

  -- A key is counted after a round exactly if it was before, or is the key of the round, authorized
  -- and signing.
  count_entry_lem :
      (verified : List (List ℕ)) (pk sig key : List ℕ)
      → contains_key (count_entry sodium authorized hash verified pk sig) key ≡ (
          contains_key verified key
          || (contains_key authorized key
              && (bytes_eq pk key && sodium.verify_detached sig hash key)))
  unfolding count_entry
  count_entry_lem verified pk sig key =
      ground (arith, bytes_eq_iff pk key, contains_key-append verified pk key)

  count_entries_lem :
      (verified pks sigs : List (List ℕ)) (key : List ℕ)
      → contains_key (count_entries sodium authorized hash verified pks sigs) key ≡ (
          contains_key verified key
          || (contains_key authorized key && endorses sodium hash pks sigs key))
  unfolding count_entries endorses
  count_entries_lem verified [] sigs key = ground arith
  count_entries_lem verified (pk ∷ pks) [] key = ground arith
  count_entries_lem verified (pk ∷ pks) (sig ∷ sigs) key = ground (
    arith,
    count_entries_lem (count_entry sodium authorized hash verified pk sig) pks sigs key,
    count_entry_lem verified pk sig key,
  )

remove : List ℕ → List (List ℕ) → List (List ℕ)
remove k [] = []
remove k (x ∷ xs) = let rest = x ∷ remove k xs in if bytes_eq x k then xs else rest

length-remove :
    (k : List ℕ) (xs : List (List ℕ))
    → contains_key xs k ≡ true
    → length (remove k xs) + 1 ≡ length xs
unfolding remove contains_key
length-remove k [] h = ground arith
length-remove k (x ∷ xs) h = ground (arith, length-remove k xs)

contains_key-remove :
    (k j : List ℕ) (xs : List (List ℕ))
    → bytes_eq k j ≡ false
    → contains_key (remove k xs) j ≡ contains_key xs j
unfolding remove contains_key
contains_key-remove k j [] h = refl
contains_key-remove k j (x ∷ xs) h = ground (arith, contains_key-remove k j xs h, bytes_eq_iff x k)

-- Distinct keys that all stand in a list are no more than the list.
distinct-le :
    (ks xs : List (List ℕ))
    → IsDistinct ks
    → ((key : List ℕ) → contains_key ks key ≡ true → contains_key xs key ≡ true)
    → length ks ≤ length xs
distinct-le [] xs d within = omega arith
distinct-le (k ∷ ks) xs (new, d) within =
    omega (arith, length-remove k xs here, distinct-le ks (remove k xs) d others)
  where
    here : contains_key xs k ≡ true
    here = within k (unfold contains_key in ground (arith, bytes_eq_refl k))

    others : (key : List ℕ) → contains_key ks key ≡ true → contains_key (remove k xs) key ≡ true
    others key found = elim (Bool-cases (bytes_eq k key)) [
      | inl equal ↦ cc (found, new, contains_key_eq ks k key ((bytes_eq_iff k key).0 equal))
      | inr apart ↦
          contains_key-remove k key xs apart
          ∙ within key (unfold contains_key in rw (apart, found) refl)
    ]

module _ (sodium : Sodium) (authorized : List (List ℕ)) (h : BlockHeader) where
  first-IsDistinct : IsDistinct (count_validator sodium authorized h)
  unfolding count_validator contains_key
  first-IsDistinct = ground arith

  verified_keys-IsDistinct : IsDistinct (verified_keys sodium authorized h)
  unfolding verified_keys
  verified_keys-IsDistinct =
      count_entries-IsDistinct sodium authorized (signing_hash sodium h)
        (count_validator sodium authorized h) h.quorum_pubkeys h.quorum_signatures first-IsDistinct

  verified_keys_lem :
      (key : List ℕ)
      → contains_key (verified_keys sodium authorized h) key ≡ (
          contains_key authorized key
          && ((bytes_eq h.validator_pubkey key && verify_signature sodium h)
              || endorses sodium (signing_hash sodium h) h.quorum_pubkeys h.quorum_signatures key))
  unfolding verified_keys count_validator contains_key
  verified_keys_lem key = ground (
    arith,
    count_entries_lem sodium authorized (signing_hash sodium h)
        (count_validator sodium authorized h) h.quorum_pubkeys h.quorum_signatures key,
    bytes_eq_iff h.validator_pubkey key,
  )

  -- The quorum is the number of different authorized keys that sign: with the header's own signature,
  -- or with a signature that stands beside the key in the quorum. A key is counted once, however
  -- often it stands there, and the count is at most the number of authorized keys.
  pub verify_quorum_lem :
      (keys : List (List ℕ)) × (verify_quorum sodium authorized h ≡ length keys)
      × IsDistinct keys
      × ((key : List ℕ)
          → contains_key keys key ≡ (
              contains_key authorized key
              && ((bytes_eq h.validator_pubkey key && verify_signature sodium h)
                  || endorses sodium
                      (signing_hash sodium h)
                      h.quorum_pubkeys
                      h.quorum_signatures
                      key)))
      × (length keys ≤ length authorized)
  verify_quorum_lem = (
    verified_keys sodium authorized h,
    counted authorized within_authorized,
    verified_keys-IsDistinct,
    verified_keys_lem,
    within_authorized,
  )
    where
      within_authorized : length (verified_keys sodium authorized h) ≤ length authorized
      within_authorized =
          distinct-le (verified_keys sodium authorized h) authorized verified_keys-IsDistinct
            (λ key found. ground (arith, verified_keys_lem key))

      counted :
          (auth : List (List ℕ))
          → length (verified_keys sodium auth h) ≤ length auth
          → verify_quorum sodium auth h ≡ length (verified_keys sodium auth h)
      counted [] few = unfold verify_quorum in omega arith
      counted (k ∷ auth) few = unfold verify_quorum in refl
