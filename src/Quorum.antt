-- ===== src/Quorum.antt =====
-- src/block.cpp: the methods of `BlockHeader`: hashes, signatures and the M-of-N quorum.
pub mod Lex
pub mod Insert
pub mod Canonical
pub mod Count
pub mod Sign
mod Runs
use cryptopeg.Prelude.{
  ℕ, zero, suc, Bool, true, false, ◌&&◌, not, List, [], ◌∷◌, ◌++◌, ltb, ◌==◌, if◌then◌else◌, length,
  bytes_eq,
}
use cryptopeg.Serial.{write_u32, write_u64, write_bytes}
use cryptopeg.Block.{BlockHeader}
use cryptopeg.Block.Encode.{serialize_header}
use cryptopeg.Sodium.{Sodium}

-- `std::lexicographical_compare` of two keys.
unfoldable pub lex_lt : List ℕ → List ℕ → Bool
lex_lt xs [] = false
lex_lt [] (y ∷ ys) = true
lex_lt (x ∷ xs) (y ∷ ys) =
    let rest = lex_lt xs ys in if ltb x y then true else if ltb y x then false else rest

-- A loop that looks for a key by `sodium_memcmp`.
unfoldable pub contains_key : List (List ℕ) → List ℕ → Bool
contains_key [] pk = false
contains_key (k ∷ ks) pk = let rest = contains_key ks pk in if bytes_eq k pk then true else rest

-- `while (pos < size && quorum_pubkeys[pos] < pub_key) ++pos;`
unfoldable pub find_pos : List (List ℕ) → List ℕ → ℕ
find_pos [] pk = 0
find_pos (k ∷ ks) pk = let rest = suc (find_pos ks pk) in if lex_lt k pk then rest else 0

-- `v.insert(v.begin() + pos, x)`
unfoldable pub insert_at : ℕ → List ℕ → List (List ℕ) → List (List ℕ)
insert_at zero x xs = x ∷ xs
insert_at (suc pos) x [] = x ∷ []
insert_at (suc pos) x (y ∷ ys) = y ∷ insert_at pos x ys

unfoldable pub add_quorum_signature : BlockHeader → List ℕ → List ℕ → BlockHeader
add_quorum_signature h pk sig = if contains_key h.quorum_pubkeys pk then h else record h {
  quorum_pubkeys = insert_at (find_pos h.quorum_pubkeys pk) pk h.quorum_pubkeys;
  quorum_signatures = insert_at (find_pos h.quorum_pubkeys pk) sig h.quorum_signatures;
}

unfoldable pub all_zero : List ℕ → Bool
all_zero [] = true
all_zero (b ∷ bs) = (b == 0) && all_zero bs

module _ (sodium : Sodium) where
  unfoldable pub signing_hash : BlockHeader → List ℕ
  signing_hash h =
      let w₁ = write_u32 [] h.version in
      let w₂ = write_u64 w₁ h.height in
      let w₃ = write_bytes w₂ h.prev_block_hash in
      let w₄ = write_bytes w₃ h.merkle_root in
      let w₅ = write_u64 w₄ h.timestamp in let w₆ = write_u64 w₅ h.nonce in sodium.generichash 32 w₆

  -- `BlockHeader::hash`
  unfoldable pub header_hash : BlockHeader → List ℕ
  header_hash h = sodium.generichash 32 (serialize_header [] h)

  unfoldable pub sign : BlockHeader → List ℕ → List ℕ → BlockHeader
  sign h secret_key pk =
      let signed = record h {
        validator_pubkey = pk;
        validator_signature = sodium.sign_detached (signing_hash h) secret_key;
      } in
      add_quorum_signature signed pk signed.validator_signature

  unfoldable pub verify_signature : BlockHeader → Bool
  verify_signature h =
      if all_zero h.validator_pubkey
      then false
      else sodium.verify_detached h.validator_signature (signing_hash h) h.validator_pubkey

  -- One round of the loop over the quorum: a key that is authorized, not yet counted and signs is
  -- counted.
  unfoldable pub count_entry :
      List (List ℕ) → List ℕ → List (List ℕ) → List ℕ → List ℕ → List (List ℕ)
  count_entry authorized hash verified pk sig =
      if contains_key authorized pk
        && (not (contains_key verified pk) && sodium.verify_detached sig hash pk)
      then verified ++ (pk ∷ [])
      else verified

  -- `for (i = 0; i < min(quorum_pubkeys.size(), quorum_signatures.size()); ++i)`
  unfoldable pub count_entries :
      List (List ℕ) → List ℕ → List (List ℕ) → List (List ℕ) → List (List ℕ) → List (List ℕ)
  count_entries authorized hash verified [] sigs = verified
  count_entries authorized hash verified (pk ∷ pks) [] = verified
  count_entries authorized hash verified (pk ∷ pks) (sig ∷ sigs) =
      count_entries authorized hash (count_entry authorized hash verified pk sig) pks sigs

  -- The key of the header's own signature, if it is authorized.
  unfoldable pub count_validator : List (List ℕ) → BlockHeader → List (List ℕ)
  count_validator authorized h =
      if verify_signature h && contains_key authorized h.validator_pubkey
      then h.validator_pubkey ∷ []
      else []

  -- `verified_keys` at the end of `verify_quorum`.
  unfoldable pub verified_keys : List (List ℕ) → BlockHeader → List (List ℕ)
  verified_keys authorized h =
      count_entries authorized (signing_hash h) (count_validator authorized h) h.quorum_pubkeys
        h.quorum_signatures

  unfoldable pub verify_quorum : List (List ℕ) → BlockHeader → ℕ
  verify_quorum [] h = 0
  verify_quorum (k ∷ authorized) h = length (verified_keys (k ∷ authorized) h)
