-- ===== src/KeyImages/Runs.antt =====
-- Runs of the ledger with the examples for libsodium's functions, and its theorem at a concrete input.
use cryptopeg.Prelude.{◌+◌, ◌≡◌, refl, false, ◌||◌, not, arith, [], ◌∷◌, if◌then◌else◌, bytes_eq}
use cryptopeg.Hex.{to_hex}
use cryptopeg.Quorum.{contains_key}
use cryptopeg.Sodium.Toy.{toy, even_key, toy_add_bytes}
use cryptopeg.KeyImages.{
  KeyImageLedger, finds, insert, restore_key_image, clear, size, canonical_key_image,
  register_key_image, is_spent,
}
use cryptopeg.KeyImages.Ledger.{register_key_image_lem}

abbrev empty : KeyImageLedger
empty = record { spent_images = [] }

-- One image is restored; registering an image with the same representative fails.
abbrev restored : KeyImageLedger
restored = restore_key_image even_key empty

alias_run : (register_key_image toy (15 ∷ []) restored).0 ≡ false
unfolding register_key_image finds insert restore_key_image contains_key canonical_key_image
    bytes_eq to_hex
alias_run = refl

clear_run : size (clear restored) ≡ 0
unfolding size clear
clear_run = refl

register_key_image_lem_example :
    let (new, ledger') = register_key_image toy (15 ∷ []) empty in
    (new ≡ not (is_spent toy (15 ∷ []) empty))
    × (is_spent toy (1 ∷ []) ledger' ≡ (
        bytes_eq (canonical_key_image toy (15 ∷ [])) (canonical_key_image toy (1 ∷ []))
        || is_spent toy (1 ∷ []) empty))
    × (size ledger' ≡ size empty + (if new then 1 else 0))
register_key_image_lem_example =
    register_key_image_lem toy toy_add_bytes (15 ∷ []) (1 ∷ []) empty (omega arith) (omega arith)
