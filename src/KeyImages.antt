-- ===== src/KeyImages.antt =====
-- include/types.hpp, include/ring_signature.hpp and src/ring_signature.cpp: the ledger of the images
-- of spent keys. The set of texts is a list of them, the newest first.
pub mod Ledger
mod Runs
use cryptopeg.Prelude.{
  ℕ, Bool, true, false, Option, none, some, List, [], ◌∷◌, length, if◌then◌else◌,
}
use cryptopeg.Hex.{to_hex}
use cryptopeg.Quorum.{contains_key}
use cryptopeg.Sodium.{Sodium}

pub record KeyImageLedger : Type 0 where
  pub spent_images : List (List ℕ)

-- `spent_images_.find(text) != spent_images_.end()`
unfoldable pub finds : KeyImageLedger → List ℕ → Bool
finds ledger text = contains_key ledger.spent_images text

-- `spent_images_.insert(text)`
unfoldable pub insert : List ℕ → KeyImageLedger → KeyImageLedger
insert text ledger =
    if finds ledger text then ledger else record { spent_images = text ∷ ledger.spent_images }

unfoldable pub clear : KeyImageLedger → KeyImageLedger
clear ledger = record { spent_images = [] }

unfoldable pub size : KeyImageLedger → ℕ
size ledger = length ledger.spent_images

-- An image is stored already multiplied by the cofactor.
unfoldable pub restore_key_image : List ℕ → KeyImageLedger → KeyImageLedger
restore_key_image image ledger = insert (to_hex image) ledger

-- The sum, or the image itself where an addition fails.
abbrev pub or_image : Option (List ℕ) → List ℕ → (List ℕ → List ℕ) → List ℕ
or_image none image f = image
or_image (some p) image f = f p

module _ (sodium : Sodium) where
  -- 8 I by three doublings.
  unfoldable pub canonical_key_image : List ℕ → List ℕ
  canonical_key_image image = or_image (sodium.point_add image image) image λ p2.
      or_image (sodium.point_add p2 p2) image λ p4. or_image (sodium.point_add p4 p4) image λ p8. p8

  -- The result, and the ledger then.
  unfoldable pub register_key_image : List ℕ → KeyImageLedger → Bool × KeyImageLedger
  register_key_image image ledger =
      let text = to_hex (canonical_key_image image) in
      if finds ledger text then (false, ledger) else (true, insert text ledger)

  unfoldable pub is_spent : List ℕ → KeyImageLedger → Bool
  is_spent image ledger = finds ledger (to_hex (canonical_key_image image))
