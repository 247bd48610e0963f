-- ===== src/Stealth/Runs.antt =====
-- Runs of the stealth addresses with the examples for libsodium's functions, and their theorems at
-- concrete inputs.
use cryptopeg.Prelude.{ℕ, ◌≡◌, ◌↔◌, ◌⊎◌, refl, true, none, some, arith, List, [], ◌∷◌, replicate}
use cryptopeg.Errors.{Error, ok, err}
use cryptopeg.Block.{OneTimeOutput}
use cryptopeg.Sodium.Toy.{toy, toy-IsGroup, odd_key, odd_key-IsScalar}
use cryptopeg.Stealth.{
  StealthAddress, StealthWallet, encode, decode, get_public_address, generate_random,
  ephemeral_secret, create_one_time_output, scan_output, derive_one_time_private_key,
}
use cryptopeg.Stealth.Protocol.{scan_output_lem, create_one_time_output_lem}
use cryptopeg.Stealth.Address.{decode-encode}

abbrev spend_scalar : List ℕ
spend_scalar = odd_key

abbrev view_scalar : List ℕ
view_scalar = odd_key

abbrev seed : List ℕ
seed = replicate 32 6

abbrev someone : StealthWallet
someone = generate_random toy spend_scalar view_scalar

-- The destination is the spend key itself.
abbrev output : OneTimeOutput
output = record { ephemeral_public_key = 15 ∷ []; destination_one_time = 15 ∷ []; amount = 40 }

address_run : decode [] ≡ err Error.bad_stealth_address
unfolding decode
address_run = refl

scan_output_lem_example : (scan_output toy someone output ≡ true) ↔ (
    (x : List ℕ) × (derive_one_time_private_key toy someone output ≡ ok x)
    × (toy.scalarmult_base x ≡ output.destination_one_time))
scan_output_lem_example =
    scan_output_lem toy toy-IsGroup spend_scalar view_scalar output odd_key-IsScalar

create_one_time_output_lem_example :
    let created = create_one_time_output toy (get_public_address someone) 40 (some seed) odd_key in
    ((created ≡ err Error.shared_point_failed)
      × (toy.scalarmult (ephemeral_secret toy (some seed) odd_key) someone.view_public_key ≡ none))
    ⊎ ((made : OneTimeOutput) × (created ≡ ok made)
        × (made.amount ≡ 40)
        × (scan_output toy someone made ≡ true)
        × ((x : List ℕ) × (derive_one_time_private_key toy someone made ≡ ok x)
            × (toy.scalarmult_base x ≡ made.destination_one_time)))
create_one_time_output_lem_example =
    create_one_time_output_lem toy toy-IsGroup spend_scalar view_scalar 40 (some seed) odd_key
      odd_key-IsScalar odd_key-IsScalar odd_key-IsScalar

abbrev address : StealthAddress
address = record { spend_public_key = replicate 32 171; view_public_key = replicate 32 9 }

decode-encode_example : decode (encode address) ≡ ok address
decode-encode_example = decode-encode address refl refl (omega arith) (omega arith)
