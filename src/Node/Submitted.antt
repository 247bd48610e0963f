-- ===== src/Node/Submitted.antt =====
-- src/node.cpp: a transaction that `submit_pre_signed_transaction` takes passes the checks of
-- `apply_remote_block`.
use cryptopeg.Prelude.{
  ℕ, ◌≡◌, refl, ap, ◌∙◌, Bool, true, false, not, Option, none, some, List, [], ◌∷◌, bytes_eq,
  bytes_eq_iff, bytes_eq_refl, Bool-cases, Option-cases, ◌+◌, arith, inl, inr,
}
use cryptopeg.Errors.{Error, ok, throw_if}
use cryptopeg.Amount.{safe_add_amount}
use cryptopeg.Block.{OneTimeOutput, ShieldedTransaction}
use cryptopeg.Ring.{
  ed25519_identity, distinct_keys, valid_points, compute_canonical_tx_hash, verify,
}
use cryptopeg.Sodium.{Sodium}
use cryptopeg.Sodium.Group.{eight}
use cryptopeg.Stealth.{or_throw}
use cryptopeg.Lmdb.{Lmdb, Txn}
use cryptopeg.Database.Lookup.{>>=-ok}
use cryptopeg.Node.{accept, Node}
use cryptopeg.Node.Transfers.{
  amount_of, same_denomination, total_spent, ring_denomination, is_denomination, hash_valid,
  spent_here, spent_already, check_tx,
}
use cryptopeg.Node.Submit.{submitted_denomination, submitted_total, check_submitted}

throw_if-ok : (c : Bool) (e : Error) (u : Unit {0}) → throw_if c e ≡ ok u → c ≡ false
throw_if-ok true e u h = cc (h)
throw_if-ok false e u h = refl

throw_if-not-ok : (c : Bool) (e : Error) (u : Unit {0}) → throw_if (not c) e ≡ ok u → c ≡ true
throw_if-not-ok true e u h = refl
throw_if-not-ok false e u h = cc (h)

-- The loops of the two methods agree where they end.
total_agrees :
    (total : ℕ) (outs : List OneTimeOutput) (t : ℕ)
    → submitted_total total outs ≡ ok t
    → total_spent total outs ≡ accept t
unfolding submitted_total total_spent safe_add_amount
total_agrees total [] t h = cc (h)
total_agrees total (out ∷ outs) t h = ground (arith, total_agrees (total + out.amount) outs t)

denomination_agrees :
    (pool : List OneTimeOutput) (before : Option ℕ) (ring : List (List ℕ)) (d : Option ℕ)
    → submitted_denomination pool before ring ≡ ok d
    → ring_denomination pool before ring ≡ accept d
unfolding submitted_denomination ring_denomination
denomination_agrees pool before [] d h = cc (h)
denomination_agrees pool before (pk ∷ ring) d h = elim (Option-cases (amount_of pk pool)) [
  | inl unknown ↦ cc (rw (unknown, submitted_denomination) at h)
  | inr (a, known) ↦ elim (Bool-cases (same_denomination before a)) [
    | inl same ↦
        rw (ring_denomination, known, same)
          (denomination_agrees pool (some a) ring d (rw (known, same, submitted_denomination) at h))
    | inr other ↦ cc (rw (known, other, submitted_denomination) at h)
  ]
]

module _ (sodium : Sodium) (lmdb : Lmdb) (reading : Txn) (node : Node sodium lmdb) where
  -- What a transaction that is taken passed.
  record Passed (tx : ShieldedTransaction) : Type 0 where
    fresh : spent_already sodium lmdb reading node tx.ring_sig.key_image ≡ false
    distinct : distinct_keys tx.ring_sig.ring_pubkeys ≡ true
    denomination : Option ℕ
    total : ℕ
    members : submitted_denomination node.utxo_pool none tx.ring_sig.ring_pubkeys ≡ ok denomination
    summed : submitted_total tx.public_fee tx.outputs ≡ ok total
    balanced : is_denomination denomination total ≡ true
    canonical :
        compute_canonical_tx_hash sodium tx.outputs tx.public_fee tx.ring_sig.ring_pubkeys
          tx.ring_sig.key_image
        ≡ tx.tx_hash
    signed : verify sodium tx.tx_hash tx.ring_sig ≡ ok true

  check_submitted-Passed :
      (tx : ShieldedTransaction) → check_submitted sodium lmdb reading node tx ≡ ok tt → Passed tx
  unfolding check_submitted
  check_submitted-Passed tx h =
      let (_, _, h₁) =
        >>=-ok (throw_if (not (sodium.is_valid_point tx.ring_sig.key_image)) Error.bad_key_image) _
          tt h in
      let (ki_8, _, h₂) =
        >>=-ok (or_throw (sodium.scalarmult eight tx.ring_sig.key_image) Error.image_torsion_failed)
          _ tt h₁ in
      let (_, _, h₃) =
        >>=-ok (throw_if (bytes_eq ki_8 ed25519_identity) Error.small_order_image) _ tt h₂ in
      let (_, fresh, h₄) =
        >>=-ok
          (throw_if (spent_already sodium lmdb reading node tx.ring_sig.key_image)
            Error.double_spend)
          _ tt h₃ in
      let (_, _, h₅) =
        >>=-ok (throw_if (not (valid_points sodium tx.ring_sig.ring_pubkeys)) Error.bad_ring_member)
          _ tt h₄ in
      let (_, distinct, h₆) =
        >>=-ok (throw_if (not (distinct_keys tx.ring_sig.ring_pubkeys)) Error.repeated_ring_member)
          _ tt h₅ in
      let (d, members, h₇) =
        >>=-ok (submitted_denomination node.utxo_pool none tx.ring_sig.ring_pubkeys) _ tt h₆ in
      let (total, summed, h₈) = >>=-ok (submitted_total tx.public_fee tx.outputs) _ tt h₇ in
      let (_, balanced, h₉) =
        >>=-ok (throw_if (not (is_denomination d total)) Error.spent_mismatch) _ tt h₈ in
      let (_, hashed, h₁₀) =
        >>=-ok
          (throw_if
            (not (
              bytes_eq
                (compute_canonical_tx_hash sodium tx.outputs tx.public_fee tx.ring_sig.ring_pubkeys
                  tx.ring_sig.key_image)
                tx.tx_hash))
            Error.wrong_transaction_hash)
          _ tt h₉ in
      let (verified, signed, h₁₁) = >>=-ok (verify sodium tx.tx_hash tx.ring_sig) _ tt h₁₀ in
      record {
        fresh = throw_if-ok _ Error.double_spend _ fresh;
        distinct = throw_if-not-ok _ Error.repeated_ring_member _ distinct;
        denomination = d;
        total = total;
        members = members;
        summed = summed;
        balanced = throw_if-not-ok _ Error.spent_mismatch _ balanced;
        canonical =
            (bytes_eq_iff _ tx.tx_hash).0 (throw_if-not-ok _ Error.wrong_transaction_hash _ hashed);
        signed = signed ∙ ap ok (throw_if-not-ok verified Error.invalid_ring_signature tt h₁₁);
      }

  Passed-check_tx :
      (height : ℕ) (tx : ShieldedTransaction)
      → Passed tx
      → check_tx sodium lmdb reading node height tx [] ≡ accept tt
  unfolding check_tx hash_valid spent_here
  Passed-check_tx height tx p =
      rw
        (
          p.canonical,
          bytes_eq_refl tx.tx_hash,
          p.signed,
          p.fresh,
          total_agrees tx.public_fee tx.outputs p.total p.summed,
          p.distinct,
          denomination_agrees node.utxo_pool none tx.ring_sig.ring_pubkeys p.denomination p.members,
          p.balanced,
        )
        refl

  -- What a submitted transaction passes is what is asked of the first transaction of a remote block.
  pub check_submitted-check_tx :
      (height : ℕ) (tx : ShieldedTransaction)
      → check_submitted sodium lmdb reading node tx ≡ ok tt
      → check_tx sodium lmdb reading node height tx [] ≡ accept tt
  check_submitted-check_tx height tx h = Passed-check_tx height tx (check_submitted-Passed tx h)
