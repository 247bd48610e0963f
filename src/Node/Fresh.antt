-- ===== src/Node/Fresh.antt =====
-- src/node.cpp: the images that the loops of `apply_remote_block` let through.
use mathlib.Core.List.{append_assoc, append-nil}
use cryptopeg.Prelude.{
  ℕ, ◌-◌, ltb, ◌≡◌, refl, sym, ap, ◌∙◌, arith, true, false, not, List, [], ◌∷◌, ◌++◌, All,
  bytes_eq_iff,
}
use cryptopeg.Vault.{WithdrawalReceipt, Vault}
use cryptopeg.Vault
use cryptopeg.Block.{OneTimeOutput, ShieldedTransaction}
use cryptopeg.Quorum.{contains_key}
use cryptopeg.Ring.{distinct_keys, verify, verify_burn_proof}
use cryptopeg.Hex.{is_valid_evm_address}
use cryptopeg.KeyImages.{canonical_key_image}
use cryptopeg.Sodium.{Sodium}
use cryptopeg.Lmdb.{Lmdb, Txn}
use cryptopeg.Database.Lookup.{canonical_images}
use cryptopeg.Database.Contents.{
  tx_outputs, raw_images, raw_burns, contains_key-append, canonical_images-append,
}
use cryptopeg.Node.{Refusal, accept, refuse_if, uncaught, Node}
use cryptopeg.Node.Deposits.{vault_after}
use cryptopeg.Node.Transfers.{hash_valid, amount_of, spent_here, spent_already, check_tx, check_txs}
use cryptopeg.Node.Burns.{
  Burning, burn_message, known_utxo, check_burn_amounts, check_change, check_withdrawal,
  check_withdrawals,
}
use cryptopeg.Node.Accepted.{>>=-accept, refuse_if-accept, accept_injective}

-- One more key at the end.
distinct_keys-append :
    (ks : List (List ℕ)) (k : List ℕ)
    → distinct_keys ks ≡ true
    → contains_key ks k ≡ false
    → distinct_keys (ks ++ (k ∷ [])) ≡ true
unfolding distinct_keys contains_key
distinct_keys-append [] k d new = refl
distinct_keys-append (j ∷ ks) k d new = ground (
  arith,
  distinct_keys-append ks k,
  contains_key-append ks (k ∷ []) j,
  bytes_eq_iff j k,
  bytes_eq_iff k j,
)

module _ (sodium : Sodium) where
  -- The loop over the images so far compares canonical representatives.
  pub spent_here-eq :
      (images : List (List ℕ)) (image : List ℕ)
      → spent_here sodium images image
        ≡ contains_key (canonical_images sodium images) (canonical_key_image sodium image)
  unfolding spent_here contains_key canonical_images
  spent_here-eq [] image = refl
  spent_here-eq (ki ∷ images) image = ground (arith, spent_here-eq images image)

module _ (sodium : Sodium) (lmdb : Lmdb) (reading : Txn) (node : Node sodium lmdb) where
  -- Images that come after others, each new to those before it, to the ledger and to the database.
  abbrev pub Fresh : List (List ℕ) → List (List ℕ) → Type 0
  Fresh before [] = Unit {0}
  Fresh before (image ∷ images) =
      (spent_here sodium before image ≡ false)
      × (spent_already sodium lmdb reading node image ≡ false)
      × Fresh (before ++ (image ∷ [])) images

  pub Fresh-append :
      (before xs ys : List (List ℕ))
      → Fresh before xs
      → Fresh (before ++ xs) ys
      → Fresh before (xs ++ ys)
  Fresh-append before [] ys f g = rw (append-nil) at g
  Fresh-append before (x ∷ xs) ys (new, unspent, f) g = (
    new,
    unspent,
    Fresh-append (before ++ (x ∷ [])) xs ys f (rw (append_assoc before (x ∷ []) xs) g),
  )

  pub Fresh-unspent :
      (before xs : List (List ℕ))
      → Fresh before xs
      → All (λ image. spent_already sodium lmdb reading node image ≡ false) xs
  Fresh-unspent before [] f = tt
  Fresh-unspent before (x ∷ xs) (new, unspent, f) =
      (unspent, Fresh-unspent (before ++ (x ∷ [])) xs f)

  pub Fresh-distinct :
      (before xs : List (List ℕ))
      → Fresh before xs
      → distinct_keys (canonical_images sodium before) ≡ true
      → distinct_keys (canonical_images sodium (before ++ xs)) ≡ true
  unfolding canonical_images
  Fresh-distinct before [] f d = rw append-nil d
  Fresh-distinct before (x ∷ xs) (new, unspent, f) d =
      let canonical = canonical_images sodium before in
      let fresh = sym (spent_here-eq sodium before x) ∙ new in
      let longer = distinct_keys-append canonical (canonical_key_image sodium x) d fresh in
      let one : distinct_keys (canonical_images sodium (before ++ (x ∷ []))) ≡ true =
        rw (canonical_images-append sodium before (x ∷ [])) longer in
      rw (← append_assoc before (x ∷ []) xs) (Fresh-distinct (before ++ (x ∷ [])) xs f one)

  -- A transaction that is accepted spends a fresh image.
  check_tx-fresh :
      (height : ℕ) (tx : ShieldedTransaction) (before : List (List ℕ))
      → check_tx sodium lmdb reading node height tx before ≡ accept tt
      → (spent_here sodium before tx.ring_sig.key_image ≡ false)
        × (spent_already sodium lmdb reading node tx.ring_sig.key_image ≡ false)
  unfolding check_tx
  check_tx-fresh height tx before h =
      let (_, _, h₁) =
        >>=-accept (refuse_if (not (hash_valid sodium height tx)) Refusal.wrong_tx_hash) _ tt h in
      let (verified, _, h₂) =
        >>=-accept (uncaught (verify sodium tx.tx_hash tx.ring_sig)) _ tt h₁ in
      let (_, _, h₃) = >>=-accept (refuse_if (not verified) Refusal.bad_ring_signature) _ tt h₂ in
      let (_, here, h₄) =
        >>=-accept
          (refuse_if (spent_here sodium before tx.ring_sig.key_image) Refusal.spent_in_block) _ tt
          h₃ in
      let (_, already, _) =
        >>=-accept
          (refuse_if (spent_already sodium lmdb reading node tx.ring_sig.key_image)
            Refusal.spent_before)
          _ tt h₄ in
      (
        refuse_if-accept _ Refusal.spent_in_block _ here,
        refuse_if-accept _ Refusal.spent_before _ already,
      )

  pub check_txs-Fresh :
      (height : ℕ) (txs : List ShieldedTransaction) (before images : List (List ℕ))
      (outs utxos : List OneTimeOutput)
      → check_txs sodium lmdb reading node height txs before outs ≡ accept (images, utxos)
      → (images ≡ before ++ raw_images txs)
        × (utxos ≡ outs ++ tx_outputs txs)
        × Fresh before (raw_images txs)
  unfolding check_txs raw_images tx_outputs
  check_txs-Fresh height [] before images outs utxos h =
      let e = accept_injective (before, outs) (images, utxos) h in
      (
        sym (ap (λ (p : List (List ℕ) × List OneTimeOutput). p.0) e) ∙ sym (append-nil before),
        sym (ap (λ (p : List (List ℕ) × List OneTimeOutput). p.1) e) ∙ sym (append-nil outs),
        tt,
      )
  check_txs-Fresh height (tx ∷ txs) before images outs utxos h =
      let (_, checked, rest) =
        >>=-accept (check_tx sodium lmdb reading node height tx before) _ _ h in
      let (new, unspent) = check_tx-fresh height tx before checked in
      let (all, whole, fresh) =
        check_txs-Fresh height txs (before ++ (tx.ring_sig.key_image ∷ [])) images
          (outs ++ tx.outputs) utxos rest in
      (
        all ∙ append_assoc before (tx.ring_sig.key_image ∷ []) (raw_images txs),
        whole ∙ append_assoc outs tx.outputs (tx_outputs txs),
        (new, unspent, fresh),
      )

  -- A withdrawal that is accepted burns a fresh image, and the vault pays it out.
  pub check_withdrawal-fresh :
      (wdr : WithdrawalReceipt) (outs : List OneTimeOutput) (b b' : Burning)
      → check_withdrawal sodium lmdb reading node wdr outs b ≡ accept b'
      → (spent_here sodium b.spent_images wdr.key_image ≡ false)
        × (spent_already sodium lmdb reading node wdr.key_image ≡ false)
        × (b'.spent_images ≡ b.spent_images ++ (wdr.key_image ∷ []))
        × (check_burn_amounts node.vault.withdraw_fee_bps wdr ≡ accept tt)
        × (vault_after Refusal.withdrawal_refused
              (Vault.request_withdrawal wdr.gross_tokens_burned [] b.temp_vault)
            ≡ accept b'.temp_vault)
  unfolding check_withdrawal
  check_withdrawal-fresh wdr outs b b' h =
      let (_, amounts, h₁) =
        >>=-accept (check_burn_amounts node.vault.withdraw_fee_bps wdr) _ b' h in
      let (_, _, h₂) =
        >>=-accept
          (refuse_if (not (is_valid_evm_address wdr.destination_address)) Refusal.bad_address) _ b'
          h₁ in
      let (amount, _, h₃) =
        >>=-accept (known_utxo (amount_of wdr.burned_utxo_pubkey node.utxo_pool)) _ b' h₂ in
      let (_, _, h₄) =
        >>=-accept (refuse_if (ltb amount wdr.gross_tokens_burned) Refusal.utxo_too_small) _ b'
          h₃ in
      let (change, _, h₅) =
        >>=-accept
          (check_change (amount - wdr.gross_tokens_burned) wdr outs b.output_claimed
            b.expected_change_count)
          _ b' h₄ in
      let (proven, _, h₆) =
        >>=-accept
          (uncaught (
            verify_burn_proof sodium (burn_message sodium wdr) wdr.burned_utxo_pubkey (record {
              key_image = wdr.key_image;
              c0 = wdr.burn_signature_c0;
              s = wdr.burn_signature_s;
            })))
          _ b' h₅ in
      let (_, _, h₇) = >>=-accept (refuse_if (not proven) Refusal.bad_burn_proof) _ b' h₆ in
      let (_, already, h₈) =
        >>=-accept
          (refuse_if (spent_already sodium lmdb reading node wdr.key_image) Refusal.burnt_before) _
          b' h₇ in
      let (_, here, h₉) =
        >>=-accept
          (refuse_if (spent_here sodium b.spent_images wdr.key_image) Refusal.burnt_in_block) _ b'
          h₈ in
      let (vault, paid, last) =
        >>=-accept
          (vault_after Refusal.withdrawal_refused
            (Vault.request_withdrawal wdr.gross_tokens_burned [] b.temp_vault))
          _ b' h₉ in
      let e = accept_injective _ b' last in
      (
        refuse_if-accept _ Refusal.burnt_in_block _ here,
        refuse_if-accept _ Refusal.burnt_before _ already,
        sym (ap (λ (c : Burning). c.spent_images) e),
        amounts,
        paid ∙ ap (λ (c : Burning). accept c.temp_vault) e,
      )

  pub check_withdrawals-Fresh :
      (wdrs : List WithdrawalReceipt) (outs : List OneTimeOutput) (b b' : Burning)
      → check_withdrawals sodium lmdb reading node wdrs outs b ≡ accept b'
      → (b'.spent_images ≡ b.spent_images ++ raw_burns wdrs) × Fresh b.spent_images (raw_burns wdrs)
  unfolding check_withdrawals raw_burns
  check_withdrawals-Fresh [] outs b b' h = (
    sym (ap (λ (c : Burning). c.spent_images) (accept_injective b b' h))
        ∙ sym (append-nil b.spent_images),
    tt,
  )
  check_withdrawals-Fresh (wdr ∷ wdrs) outs b b' h =
      let (next, checked, rest) =
        >>=-accept (check_withdrawal sodium lmdb reading node wdr outs b) _ b' h in
      let (new, unspent, grown, _, _) = check_withdrawal-fresh wdr outs b next checked in
      let (all, fresh) = check_withdrawals-Fresh wdrs outs next b' rest in
      (
        all
            ∙ ap (λ ks. ks ++ raw_burns wdrs) grown
            ∙ append_assoc b.spent_images (wdr.key_image ∷ []) (raw_burns wdrs),
        (new, unspent, rw grown at fresh),
      )
