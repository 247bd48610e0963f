-- ===== src/Block/HeaderTrip.antt =====
-- src/block.cpp: `deserialize_header` on what `serialize_header` writes.
use mathlib.Core.List.{append_assoc}
use cryptopeg.Prelude.{
  ℕ, ◌^◌, ◌≤◌, ◌<◌, ◌≡◌, refl, ap, true, false, arith, List, [], ◌∷◌, ◌++◌, length, length-append,
  All, leb, le→ltb, le→leb,
}
use cryptopeg.Errors.{Error, Result, ok}
use cryptopeg.Errors
use cryptopeg.Serial.{read_many}
use cryptopeg.Serial.Format.{
  le_bytes, length-le_bytes, u32_bytes, read_u32-u32_bytes, read_u64-u64_bytes, read_bytes-append,
}
use cryptopeg.Block.{BlockHeader, IsKey, IsSignature}
use cryptopeg.Block.Encode.{serialize_header}
use cryptopeg.Block.Decode.{read_quorum_entry, read_quorum, firsts, seconds, deserialize_header}
use cryptopeg.Block.Format.{quorum_bytes, header_front, header_bytes, IsHeaderFront, IsQuorum}
use cryptopeg.Block.Written.{serialize_header_lem}

abbrev pairs : List (List ℕ) → List (List ℕ) → List (List ℕ × List ℕ)
pairs [] sigs = []
pairs (pk ∷ pks) [] = []
pairs (pk ∷ pks) (sig ∷ sigs) = (pk, sig) ∷ pairs pks sigs

firsts-pairs : (pks sigs : List (List ℕ)) → length sigs ≡ length pks → firsts (pairs pks sigs) ≡ pks
firsts-pairs [] sigs h = refl
firsts-pairs (pk ∷ pks) [] h = absurd (omega arith)
firsts-pairs (pk ∷ pks) (sig ∷ sigs) h = ap (λ l. pk ∷ l) (firsts-pairs pks sigs (omega arith))

seconds-pairs :
    (pks sigs : List (List ℕ)) → length sigs ≡ length pks → seconds (pairs pks sigs) ≡ sigs
seconds-pairs [] [] h = refl
seconds-pairs [] (sig ∷ sigs) h = absurd (omega arith)
seconds-pairs (pk ∷ pks) [] h = absurd (omega arith)
seconds-pairs (pk ∷ pks) (sig ∷ sigs) h = ap (λ l. sig ∷ l) (seconds-pairs pks sigs (omega arith))

read_quorum_entries :
    (pks sigs : List (List ℕ)) (t : List ℕ)
    → length sigs ≡ length pks
    → All IsKey pks
    → All IsSignature sigs
    → read_many (length pks) read_quorum_entry (quorum_bytes pks sigs ++ t) ≡ ok (pairs pks sigs, t)
unfolding read_many quorum_bytes read_quorum_entry
read_quorum_entries [] sigs t e hp hs = refl
read_quorum_entries (pk ∷ pks) [] t e hp hs = absurd (omega arith)
read_quorum_entries (pk ∷ pks) (sig ∷ sigs) t e (hp, hps) (hs, hss) = simp append_assoc (
    rw
      (
        read_bytes-append 32 pk _ hp,
        read_bytes-append 64 sig _ hs,
        read_quorum_entries pks sigs t (omega arith) hps hss,
      )
      refl)

pub count_left : (n : ℕ) (t : List ℕ) → leb 4 (length (u32_bytes n ++ t)) ≡ true
unfolding u32_bytes
count_left n t = le→leb 4 _ (omega (arith, length-append (le_bytes 4 0 n) t, length-le_bytes 4 0 n))

abbrev with_quorum : BlockHeader → List (List ℕ × List ℕ) → BlockHeader
with_quorum h quorum = record h {
  quorum_pubkeys = firsts quorum;
  quorum_signatures = seconds quorum;
}

-- The reader has come to the quorum.
at_quorum :
    (h : BlockHeader) (t : List ℕ)
    → IsHeaderFront h
    → deserialize_header (header_front h ++ t)
      ≡ Errors.◌>>=◌ (read_quorum h.version (length t) t) (λ p. ok (with_quorum h p.0, p.1))
unfolding deserialize_header header_front
at_quorum h t front = simp append_assoc (
    rw
      (
        read_u32-u32_bytes h.version _ front.version,
        read_u64-u64_bytes h.height _ front.height,
        read_bytes-append 32 h.prev_block_hash _ front.prev,
        read_bytes-append 32 h.merkle_root _ front.root,
        read_u64-u64_bytes h.timestamp _ front.time,
        read_u64-u64_bytes h.nonce _ front.nonce,
        read_bytes-append 32 h.validator_pubkey _ front.key,
        read_bytes-append 64 h.validator_signature t front.signature,
      )
      refl)

pub deserialize_header_lem :
    (h : BlockHeader) (t : List ℕ)
    → 3 ≤ h.version
    → IsHeaderFront h
    → IsQuorum h
    → deserialize_header (header_bytes h ++ t) ≡ ok (h, t)
unfolding header_bytes read_quorum
deserialize_header_lem h t modern front q = simp append_assoc (
    rw
      (
        at_quorum h _ front,
        le→leb 3 h.version modern,
        count_left (length h.quorum_pubkeys)
            (quorum_bytes h.quorum_pubkeys h.quorum_signatures ++ t),
        read_u32-u32_bytes (length h.quorum_pubkeys) _ (omega arith),
        le→ltb 64 (length h.quorum_pubkeys) q.few,
        read_quorum_entries h.quorum_pubkeys h.quorum_signatures t q.paired q.keys q.signatures,
        firsts-pairs h.quorum_pubkeys h.quorum_signatures q.paired,
        seconds-pairs h.quorum_pubkeys h.quorum_signatures q.paired,
      )
      refl)

-- `serialize_header` writes the quorum of every header, and `deserialize_header` reads it only from
-- version 3 on. Of a header below version 3 whose fields have their sizes it reads all fields but
-- the quorum, which it takes for empty, and leaves the count and the quorum for what is read next.
pub old_header_leaves_quorum :
    (h : BlockHeader) (t : List ℕ)
    → h.version < 3
    → IsHeaderFront h
    → length h.quorum_pubkeys < 2 ^ 32
    → deserialize_header (serialize_header [] h ++ t)
      ≡ ok (
        record h { quorum_pubkeys = []; quorum_signatures = [] },
        u32_bytes (length h.quorum_pubkeys)
            ++ (quorum_bytes h.quorum_pubkeys h.quorum_signatures ++ t),
      )
unfolding header_bytes read_quorum
old_header_leaves_quorum h t old front few =
    rw (serialize_header_lem [] h few)
      (simp append_assoc (rw (at_quorum h _ front, lt→leb h.version old) refl))
  where
    lt→leb : (version : ℕ) → version < 3 → leb 3 version ≡ false
    lt→leb version older = ground arith
