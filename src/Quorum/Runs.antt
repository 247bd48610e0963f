-- ===== src/Quorum/Runs.antt =====
-- Runs of the quorum with the examples for libsodium's functions, and its theorems at concrete inputs.
use cryptopeg.Prelude.{ℕ, ◌≤◌, ◌≡◌, ◌≢◌, refl, true, ◌&&◌, ◌||◌, List, [], ◌∷◌, length, bytes_eq}
use cryptopeg.Serial.{write_u32, write_u64, write_le, write_bytes}
use cryptopeg.Block.{BlockHeader, new_header}
use cryptopeg.Sodium.Toy.{toy, toy_pair}
use cryptopeg.Quorum.{
  lex_lt, contains_key, find_pos, insert_at, add_quorum_signature, all_zero, signing_hash, sign,
  verify_signature, count_entry, count_entries, count_validator, verified_keys, verify_quorum,
}
use cryptopeg.Quorum.Canonical.{Entries, IsCanonical, add_all, add_all_lem, exchange}
use cryptopeg.Quorum.Count.{IsDistinct, endorses, verify_quorum_lem}
use cryptopeg.Quorum.Sign.{sign_lem}

abbrev alice : List ℕ
alice = 5 ∷ 1 ∷ []

abbrev bob : List ℕ
bob = 5 ∷ 2 ∷ []

abbrev signed : BlockHeader
signed = sign toy new_header alice alice

-- The signature of another key's holder stands twice, and one that does not verify once.
abbrev crowded : BlockHeader
crowded = record new_header {
  quorum_pubkeys = bob ∷ bob ∷ alice ∷ [];
  quorum_signatures =
      toy.sign_detached (signing_hash toy new_header) bob
      ∷ toy.sign_detached (signing_hash toy new_header) bob
      ∷ (0 ∷ [])
      ∷ [];
}

add_run :
    (add_quorum_signature
      (add_quorum_signature new_header bob (2 ∷ []))
      alice
      (1 ∷ [])).quorum_signatures
    ≡ (1 ∷ []) ∷ (2 ∷ []) ∷ []
unfolding bytes_eq add_quorum_signature contains_key find_pos insert_at lex_lt
add_run = refl

crowded_run : verify_quorum toy (alice ∷ bob ∷ []) crowded ≡ 1
unfolding bytes_eq write_u32 write_u64 write_le write_bytes verify_quorum verified_keys
    count_entries count_entry count_validator contains_key verify_signature all_zero signing_hash
crowded_run = refl

verify_quorum_lem_example :
    (keys : List (List ℕ)) × (verify_quorum toy (alice ∷ bob ∷ []) crowded ≡ length keys)
    × IsDistinct keys
    × ((key : List ℕ)
        → contains_key keys key ≡ (
            contains_key (alice ∷ bob ∷ []) key
            && ((bytes_eq crowded.validator_pubkey key && verify_signature toy crowded)
                || endorses toy
                    (signing_hash toy crowded)
                    crowded.quorum_pubkeys
                    crowded.quorum_signatures
                    key)))
    × (length keys ≤ 2)
verify_quorum_lem_example = verify_quorum_lem toy (alice ∷ bob ∷ []) crowded

abbrev first_alice : Entries
first_alice = (alice, 1 ∷ []) ∷ (bob, 2 ∷ []) ∷ []

abbrev first_bob : Entries
first_bob = (bob, 2 ∷ []) ∷ (alice, 1 ∷ []) ∷ []

alice-ne-bob : alice ≢ bob
alice-ne-bob e = cc (e)

new_header-IsCanonical : IsCanonical new_header
new_header-IsCanonical = record { rising = tt; paired = refl }

add_all_lem_example :
    (add_all new_header first_alice ≡ add_all new_header first_bob)
    × IsCanonical (add_all new_header first_alice)
add_all_lem_example =
    add_all_lem new_header first_alice first_bob new_header-IsCanonical
      (exchange (alice, 1 ∷ []) (bob, 2 ∷ []) alice-ne-bob)

sign_lem_example :
    (signing_hash toy signed ≡ signing_hash toy new_header)
    × (verify_signature toy signed ≡ true)
    × (1 ≤ verify_quorum toy (bob ∷ alice ∷ []) signed)
unfolding bytes_eq contains_key all_zero
sign_lem_example = sign_lem toy alice alice (toy_pair alice) new_header (bob ∷ alice ∷ []) refl refl
