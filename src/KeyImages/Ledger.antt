-- ===== src/KeyImages/Ledger.antt =====
-- src/ring_signature.cpp: no image is registered twice, in whatever representation it comes.
use cryptopeg.Prelude.{
  ℕ, ◌+◌, ◌≡◌, refl, ap, ◌||◌, not, arith, some, Option-cases, List, All, Bool-cases, inl, inr,
  if◌then◌else◌, bytes_eq, bytes_eq_iff,
}
use cryptopeg.Hex.{to_hex, from_hex}
use cryptopeg.Hex.RoundTrip.{IsByte, from_hex-to_hex}
use cryptopeg.Quorum.{contains_key}
use cryptopeg.Sodium.{Sodium}
use cryptopeg.KeyImages.{
  KeyImageLedger, finds, insert, size, canonical_key_image, register_key_image, is_spent,
}

to_hex_injective :
    (xs ys : List ℕ) → All IsByte xs → All IsByte ys → to_hex xs ≡ to_hex ys → xs ≡ ys
to_hex_injective xs ys hx hy e = cc (ap from_hex e, from_hex-to_hex xs hx, from_hex-to_hex ys hy)

bytes_eq-to_hex :
    (xs ys : List ℕ)
    → All IsByte xs
    → All IsByte ys
    → bytes_eq (to_hex xs) (to_hex ys) ≡ bytes_eq xs ys
bytes_eq-to_hex xs ys hx hy = ground (
  arith,
  bytes_eq_iff xs ys,
  bytes_eq_iff (to_hex xs) (to_hex ys),
  to_hex_injective xs ys hx hy,
  ap to_hex {x = xs} {y = ys},
)

contains_key_found :
    (ks : List (List ℕ)) (j k : List ℕ) → j ≡ k → contains_key ks j ≡ contains_key ks k
contains_key_found ks j k e = ap (contains_key ks) e

-- What an addition gives is bytes.
module _ (sodium : Sodium)
    (add_bytes : (p q r : List ℕ) → sodium.point_add p q ≡ some r → All IsByte r) where
  canonical_key_image_bytes :
      (image : List ℕ) → All IsByte image → All IsByte (canonical_key_image sodium image)
  unfolding canonical_key_image
  canonical_key_image_bytes image h = elim (Option-cases (sodium.point_add image image)) [
    | inl failed ↦ rw failed h
    | inr (p2, twice) ↦ elim (Option-cases (sodium.point_add p2 p2)) [
      | inl failed ↦ rw (twice, failed) h
      | inr (p4, fourfold) ↦ elim (Option-cases (sodium.point_add p4 p4)) [
        | inl failed ↦ rw (twice, fourfold, failed) h
        | inr (p8, eightfold) ↦ rw (twice, fourfold, eightfold) (add_bytes p4 p4 p8 eightfold)
      ]
    ]
  ]

  -- Where the sums of points are bytes, and for images of bytes: the registration of an image
  -- succeeds exactly if it is not spent. After it an image is spent exactly if it was, or has the
  -- canonical representative of the one registered, and the ledger has grown by one if the
  -- registration succeeded, and by none else.
  pub register_key_image_lem :
      (image other : List ℕ) (ledger : KeyImageLedger)
      → All IsByte image
      → All IsByte other
      → let (new, ledger') = register_key_image sodium image ledger in
        (new ≡ not (is_spent sodium image ledger))
        × (is_spent sodium other ledger' ≡ (
            bytes_eq (canonical_key_image sodium image) (canonical_key_image sodium other)
            || is_spent sodium other ledger))
        × (size ledger' ≡ size ledger + (if new then 1 else 0))
  unfolding register_key_image is_spent insert finds size contains_key
  register_key_image_lem image other ledger hi ho =
      let texts = ledger.spent_images in
      let i = canonical_key_image sodium image in
      let o = canonical_key_image sodium other in
      let same =
        bytes_eq-to_hex i o (canonical_key_image_bytes image hi)
          (canonical_key_image_bytes other ho) in
      elim (Bool-cases (contains_key texts (to_hex i))) [
        | inl old ↦ rw old (
          refl,
          ground (
            arith,
            bytes_eq_iff i o,
            contains_key_found texts (to_hex i) (to_hex o),
            ap to_hex {x = i} {y = o},
          ),
          omega arith,
        )
        | inr new ↦ rw new (refl, rw same (ground arith), omega arith)
      ]
