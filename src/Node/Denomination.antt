-- ===== src/Node/Denomination.antt =====
-- src/node.cpp: what a shielded transaction spends is what the members of its ring hold.
use cryptopeg.Prelude.{
  ◌⊎◌, inl, inr, ℕ, ◌+◌, ◌≡◌, ap, ◌∙◌, arith, true, not, ==_iff, Bool-cases, Option-cases, Option,
  none, some, inl, inr, List, [], ◌∷◌, ◌++◌, All,
}
use cryptopeg.Amount.{safe_add_amount}
use cryptopeg.Block.{OneTimeOutput, ShieldedTransaction, Block}
use cryptopeg.Ring.{distinct_keys, verify}
use cryptopeg.Errors.{ok}
use cryptopeg.Sodium.{Sodium}
use cryptopeg.Lmdb.{Lmdb, Txn}
use cryptopeg.Node.{Refusal, accept, refuse_if, uncaught, Node}
use cryptopeg.Node.Transfers.{
  hash_valid, amount_of, total_spent, same_denomination, ring_denomination, is_denomination,
  spent_here, spent_already, check_tx, check_txs,
}
use cryptopeg.Node.Fork.{Fork, fork_choice}
use cryptopeg.Node.Apply.{Transactions, accepted, apply_remote_block}
use cryptopeg.Node.Checks.{check_block-Checked}
use cryptopeg.Node.Accepts.{checked_on, apply_remote_block-Accepted}
use cryptopeg.Node.Accepted.{>>=-accept, refuse_if-not-accept, uncaught-accept}

unfoldable pub sum_amounts : List OneTimeOutput → ℕ
sum_amounts [] = 0
sum_amounts (out ∷ outs) = out.amount + sum_amounts outs

total_spent-sum :
    (total : ℕ) (outs : List OneTimeOutput) (t : ℕ)
    → total_spent total outs ≡ accept t
    → t ≡ total + sum_amounts outs
unfolding total_spent sum_amounts safe_add_amount
total_spent-sum total [] t h = ground arith
total_spent-sum total (out ∷ outs) t h = ground (arith, total_spent-sum (total + out.amount) outs t)

-- Every member holds the denomination, and one that is set before stays.
ring_denomination-All :
    (pool : List OneTimeOutput) (ring : List (List ℕ)) (before : Option ℕ) (d : ℕ)
    → ring_denomination pool before ring ≡ accept (some d)
    → All (λ key. amount_of key pool ≡ some d) ring × (same_denomination before d ≡ true)
unfolding ring_denomination
ring_denomination-All pool [] none d h = cc (h)
ring_denomination-All pool [] (some b) d h = (tt, ground arith)
ring_denomination-All pool (pk ∷ ring) before d h = elim (Option-cases (amount_of pk pool)) [
  | inl unknown ↦ cc (rw (unknown, ring_denomination) at h)
  | inr (a, known) ↦ elim (Bool-cases (same_denomination before a)) [
    | inl same ↦
        let (others, e) =
          ring_denomination-All pool ring (some a) d (rw (known, same, ring_denomination) at h) in
        let denomination : a ≡ d = (==_iff a d).0 e in
        ((rw (← denomination) known, others), rw (← denomination) same)
    | inr mixed ↦ cc (rw (known, mixed, ring_denomination) at h)
  ]
]

is_denomination-some : (o : Option ℕ) (t : ℕ) → is_denomination o t ≡ true → o ≡ some t
is_denomination-some none t h = cc (h)
is_denomination-some (some d) t h = ground arith

module _ (sodium : Sodium) (pool : List OneTimeOutput) where
  -- The ring's signature is accepted, and every member of the ring is an output of the pool that holds
  -- the sum of the fee and of the outputs.
  pub record IsBalanced (tx : ShieldedTransaction) : Type 0 where
    pub signed : verify sodium tx.tx_hash tx.ring_sig ≡ ok true
    pub distinct : distinct_keys tx.ring_sig.ring_pubkeys ≡ true
    pub held :
        All
          (λ key. amount_of key pool ≡ some (tx.public_fee + sum_amounts tx.outputs))
          tx.ring_sig.ring_pubkeys

module _ (sodium : Sodium) (lmdb : Lmdb) (reading : Txn) (node : Node sodium lmdb) where
  check_tx-IsBalanced :
      (height : ℕ) (tx : ShieldedTransaction) (before : List (List ℕ))
      → check_tx sodium lmdb reading node height tx before ≡ accept tt
      → IsBalanced sodium node.utxo_pool tx
  unfolding check_tx
  check_tx-IsBalanced height tx before h =
      let (_, _, h₁) =
        >>=-accept (refuse_if (not (hash_valid sodium height tx)) Refusal.wrong_tx_hash) _ tt h in
      let (verified, signed, h₂) =
        >>=-accept (uncaught (verify sodium tx.tx_hash tx.ring_sig)) _ tt h₁ in
      let (_, yes_verified, h₃) =
        >>=-accept (refuse_if (not verified) Refusal.bad_ring_signature) _ tt h₂ in
      let (_, _, h₄) =
        >>=-accept
          (refuse_if (spent_here sodium before tx.ring_sig.key_image) Refusal.spent_in_block) _ tt
          h₃ in
      let (_, _, h₅) =
        >>=-accept
          (refuse_if (spent_already sodium lmdb reading node tx.ring_sig.key_image)
            Refusal.spent_before)
          _ tt h₄ in
      let (total, summed, h₆) = >>=-accept (total_spent tx.public_fee tx.outputs) _ tt h₅ in
      let (_, distinct, h₇) =
        >>=-accept (refuse_if (not (distinct_keys tx.ring_sig.ring_pubkeys)) Refusal.ring_repeats) _
          tt h₆ in
      let (denomination, members, h₈) =
        >>=-accept (ring_denomination node.utxo_pool none tx.ring_sig.ring_pubkeys) _ tt h₇ in
      let sum = total_spent-sum tx.public_fee tx.outputs total summed in
      let set =
        is_denomination-some denomination total (refuse_if-not-accept _ Refusal.unbalanced tt h₈) in
      record {
        signed =
            uncaught-accept _ verified signed
            ∙ ap ok (refuse_if-not-accept verified Refusal.bad_ring_signature _ yes_verified);
        distinct = refuse_if-not-accept _ Refusal.ring_repeats _ distinct;
        held =
            (ring_denomination-All node.utxo_pool tx.ring_sig.ring_pubkeys none
              (tx.public_fee + sum_amounts tx.outputs) (members ∙ ap accept (set ∙ ap some sum))).0;
      }

  pub check_txs-IsBalanced :
      (height : ℕ) (txs : List ShieldedTransaction) (before images : List (List ℕ))
      (outs utxos : List OneTimeOutput)
      → check_txs sodium lmdb reading node height txs before outs ≡ accept (images, utxos)
      → All (IsBalanced sodium node.utxo_pool) txs
  unfolding check_txs
  check_txs-IsBalanced height [] before images outs utxos h = tt
  check_txs-IsBalanced height (tx ∷ txs) before images outs utxos h =
      let (_, checked, rest) =
        >>=-accept (check_tx sodium lmdb reading node height tx before) _ _ h in
      (
        check_tx-IsBalanced height tx before checked,
        check_txs-IsBalanced height txs (before ++ (tx.ring_sig.key_image ∷ [])) images
            (outs ++ tx.outputs) utxos rest,
      )

-- A block that is accepted is the top already, and then nothing changes; or else, whether it extends
-- the chain or replaces the top, the signature of every transaction's ring is accepted, the members
-- of the ring are distinct, and each is the key of an output known to the node that the block is
-- checked on, whose amount is exactly the sum of the transaction's fee and outputs.
pub apply_remote_block-IsBalanced :
    (sodium : Sodium) (lmdb : Lmdb) (txns : Transactions) (block : Block)
    (node node' : Node sodium lmdb)
    → apply_remote_block sodium lmdb txns block node ≡ (accepted, node')
    → let fork = fork_choice sodium lmdb txns.reading block node in
      ((fork ≡ Fork.same) × (node' ≡ node))
      ⊎ All (IsBalanced sodium (checked_on sodium lmdb txns node fork).utxo_pool) block.txs
apply_remote_block-IsBalanced sodium lmdb txns block node node' h =
    elim (apply_remote_block-Accepted sodium lmdb txns block node node' h) [
      | inl top ↦ inl top
      | inr i ↦
          let base =
            checked_on sodium lmdb txns node (fork_choice sodium lmdb txns.reading block node) in
          let c = check_block-Checked sodium lmdb txns.reading base block i.effects i.checked in
          inr (
            check_txs-IsBalanced sodium lmdb txns.reading base block.header.height block.txs [] _ []
              _ c.moved)
    ]
