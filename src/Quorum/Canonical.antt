-- ===== src/Quorum/Canonical.antt =====
-- src/block.cpp: `add_quorum_signature` keeps the quorum sorted by key, one signature to a key, so
-- that the header does not depend on the order in which the signatures of different keys arrive.
use cryptopeg.Prelude.{
  ℕ, ◌≡◌, ◌≢◌, refl, ap, ◌∙◌, true, false, arith, List, [], ◌∷◌, bytes_eq_iff, inl, inr, Bool-cases,
}
use cryptopeg.Block.{BlockHeader}
use cryptopeg.Quorum.{lex_lt, contains_key, find_pos, insert_at, add_quorum_signature}
use cryptopeg.Quorum.Lex.{lex_total}
use cryptopeg.Quorum.Insert.{IsPaired, length-insert_at, add_quorum_signature_comm}

-- The keys rise strictly.
abbrev pub IsAbove : List ℕ → List (List ℕ) → Type 0
IsAbove k [] = Unit
IsAbove k (k' ∷ ks) = lex_lt k k' ≡ true

abbrev pub IsRising : List (List ℕ) → Type 0
IsRising [] = Unit
IsRising (k ∷ ks) = IsAbove k ks × IsRising ks

insert-IsAbove :
    (k pk : List ℕ) (ks : List (List ℕ))
    → IsAbove k ks
    → lex_lt k pk ≡ true
    → IsAbove k (insert_at (find_pos ks pk) pk ks)
unfolding find_pos insert_at
insert-IsAbove k pk [] h below = below
insert-IsAbove k pk (k' ∷ ks) h below = elim (Bool-cases (lex_lt k' pk)) [
  | inl less ↦ rw less h
  | inr more ↦ rw more below
]

-- A key that is neither below `pk` nor `pk` is above it.
below_of_new :
    (pk k : List ℕ) (ks : List (List ℕ))
    → lex_lt k pk ≡ false
    → contains_key (k ∷ ks) pk ≡ false
    → lex_lt pk k ≡ true
unfolding contains_key
below_of_new pk k ks more new = elim (Bool-cases (lex_lt pk k)) [
  | inl below ↦ below
  | inr above ↦ ground (arith, bytes_eq_iff k pk, lex_total k pk more above)
]

insert-IsRising :
    (pk : List ℕ) (ks : List (List ℕ))
    → IsRising ks
    → contains_key ks pk ≡ false
    → IsRising (insert_at (find_pos ks pk) pk ks)
unfolding find_pos insert_at contains_key
insert-IsRising pk [] h new = (tt, tt)
insert-IsRising pk (k ∷ ks) (above, rising) new = elim (Bool-cases (lex_lt k pk)) [
  | inl less ↦
      rw less (insert-IsAbove k pk ks above less, insert-IsRising pk ks rising (ground arith))
  | inr more ↦ rw more (below_of_new pk k ks more new, (above, rising))
]

-- Sorted by key, no key twice, a signature to every key.
pub record IsCanonical (h : BlockHeader) : Type 0 where
  pub rising : IsRising h.quorum_pubkeys
  pub paired : IsPaired h

-- Adding a signature keeps the quorum sorted by key, with no key twice and a signature to every key.
pub add_quorum_signature-IsCanonical :
    (h : BlockHeader) (pk sig : List ℕ)
    → IsCanonical h
    → IsCanonical (add_quorum_signature h pk sig)
unfolding add_quorum_signature
add_quorum_signature-IsCanonical h pk sig c = elim (Bool-cases (contains_key h.quorum_pubkeys pk)) [
  | inl old ↦ rw old c
  | inr new ↦ rw new (record {
    rising = insert-IsRising pk h.quorum_pubkeys c.rising new;
    paired = omega (
      arith,
      c.paired,
      length-insert_at (find_pos h.quorum_pubkeys pk) pk h.quorum_pubkeys,
      length-insert_at (find_pos h.quorum_pubkeys pk) sig h.quorum_signatures,
    );
  })
]

-- Signatures with their keys, in the order in which they arrive.
abbrev pub Entries : Type 0
Entries = List (List ℕ × List ℕ)

abbrev pub add_all : BlockHeader → Entries → BlockHeader
add_all h [] = h
add_all h (e ∷ es) = add_all (add_quorum_signature h e.0 e.1) es

-- The same entries in another order, where two that change places have different keys.
pub data Reordered : Entries → Entries → Type 0 where
  same : {es : Entries} → Reordered es es
  exchange :
      (d e : List ℕ × List ℕ) {es : Entries} → d.0 ≢ e.0 → Reordered (d ∷ e ∷ es) (e ∷ d ∷ es)
  later : (e : List ℕ × List ℕ) {es fs : Entries} → Reordered es fs → Reordered (e ∷ es) (e ∷ fs)
  both : {es fs gs : Entries} → Reordered es fs → Reordered fs gs → Reordered es gs

add_all-Reordered :
    {es fs : Entries}
    → Reordered es fs
    → (h : BlockHeader) → IsCanonical h
    → add_all h es ≡ add_all h fs
add_all-Reordered same h c = refl
add_all-Reordered (exchange d e {es} ne) h c =
    ap (λ g. add_all g es) (add_quorum_signature_comm h d.0 e.0 d.1 e.1 c.paired ne)
add_all-Reordered (later e r) h c =
    add_all-Reordered r (add_quorum_signature h e.0 e.1)
      (add_quorum_signature-IsCanonical h e.0 e.1 c)
add_all-Reordered (both r s) h c = add_all-Reordered r h c ∙ add_all-Reordered s h c

-- Signatures of different keys may arrive in any order: the header is the same, and it stays sorted
-- by key, with no key twice and a signature to every key.
pub add_all_lem :
    (h : BlockHeader) (es fs : Entries)
    → IsCanonical h
    → Reordered es fs
    → (add_all h es ≡ add_all h fs) × IsCanonical (add_all h es)
add_all_lem h es fs c r = (add_all-Reordered r h c, kept es h c)
  where
    kept : (es : Entries) (h : BlockHeader) → IsCanonical h → IsCanonical (add_all h es)
    kept [] h c = c
    kept (e ∷ es) h c =
        kept es (add_quorum_signature h e.0 e.1) (add_quorum_signature-IsCanonical h e.0 e.1 c)
