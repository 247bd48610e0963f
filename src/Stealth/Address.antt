-- ===== src/Stealth/Address.antt =====
-- src/stealth.cpp: the text of an address.
use cryptopeg.Prelude.{
  ℕ, zero, suc, ap, bytes_eq, ◌≡◌, refl, arith, List, [], ◌∷◌, take, length, All, take-append,
  drop-append, length-append,
}
use cryptopeg.Errors.{ok}
use cryptopeg.Block.{IsKey}
use cryptopeg.Hex.{to_hex}
use cryptopeg.Hex.RoundTrip.{IsByte, length-to_hex, from_hex-to_hex}
use cryptopeg.Stealth.{StealthAddress, encode, decode}

take_all : (n : ℕ) (xs : List ℕ) → length xs ≡ n → take n xs ≡ xs
take_all zero [] h = refl
take_all zero (x ∷ xs) h = absurd (omega arith)
take_all (suc n) [] h = absurd (omega arith)
take_all (suc n) (x ∷ xs) h = ap (λ t. x ∷ t) (take_all n xs (omega arith))

-- `decode` reads back the address that `encode` printed, of two keys of 32 bytes each.
pub decode-encode :
    (address : StealthAddress)
    → IsKey address.spend_public_key
    → IsKey address.view_public_key
    → All IsByte address.spend_public_key
    → All IsByte address.view_public_key
    → decode (encode address) ≡ ok address
unfolding decode encode bytes_eq
decode-encode address hs hv bs bv =
    let s = address.spend_public_key in
    let v = address.view_public_key in
    rw
      (
        length-append (to_hex s) (to_hex v),
        length-to_hex s,
        length-to_hex v,
        hs,
        hv,
        take-append 64 (to_hex s) (to_hex v) (omega (arith, length-to_hex s)),
        drop-append 64 (to_hex s) (to_hex v) (omega (arith, length-to_hex s)),
        take_all 64 (to_hex v) (omega (arith, length-to_hex v)),
        from_hex-to_hex s bs,
        from_hex-to_hex v bv,
        take_all 32 s hs,
        take_all 32 v hv,
      )
      refl
