-- ===== src/Node/Recipient.antt =====
-- src/node.cpp and src/stealth.cpp: the output of a deposit is the one that the sender would create.
use cryptopeg.Prelude.{ℕ, ◌≡◌, ap, not, ◌||◌, some, List, bytes_eq, bytes_eq_iff}
use cryptopeg.Errors.{ok}
use cryptopeg.Vault.{DepositReceipt}
use cryptopeg.Block.{OneTimeOutput}
use cryptopeg.Stealth.{StealthAddress, ephemeral_secret, shared_scalar, create_one_time_output}
use cryptopeg.Sodium.{Sodium}
use cryptopeg.Quorum.{all_zero}
use cryptopeg.Node.{Refusal, accept, refuse_if, or_refuse}
use cryptopeg.Node.Deposits.{scalarmult_base_or, check_deposit_keys}
use cryptopeg.Node.Accepted.{>>=-accept, or_refuse-accept, if_some-accept, refuse_if-not-accept}

-- The address of a deposit's receipt.
abbrev pub recipient : DepositReceipt → StealthAddress
recipient dep = record {
  spend_public_key = dep.recipient_spend_pub;
  view_public_key = dep.recipient_view_pub;
}

same_output :
    (ephemeral destination : List ℕ) (out : OneTimeOutput)
    → out.ephemeral_public_key ≡ ephemeral
    → out.destination_one_time ≡ destination
    → ◌≡◌ {A = OneTimeOutput}
        (record {
          ephemeral_public_key = ephemeral;
          destination_one_time = destination;
          amount = out.amount;
        })
        out
same_output ephemeral destination out e d = cc (e, d)

-- Where the keys of a deposit's output pass the check, the output is the one that
-- `create_one_time_output` makes for the address in the receipt and the amount, with the hash of the
-- deposit's transaction as the seed, whatever the random scalar is.
pub create_one_time_output-check_deposit_keys :
    (sodium : Sodium) (dep : DepositReceipt) (out : OneTimeOutput) (random : List ℕ)
    → check_deposit_keys sodium dep out ≡ accept tt
    → create_one_time_output sodium
        (recipient dep)
        out.amount
        (some (sodium.generichash 32 dep.tx_hash))
        random
      ≡ ok out
unfolding check_deposit_keys create_one_time_output ephemeral_secret shared_scalar
create_one_time_output-check_deposit_keys sodium dep out random h =
    let r = sodium.scalar_reduce (sodium.generichash 64 (sodium.generichash 32 dep.tx_hash)) in
    let (ephemeral, drawn, h₁) =
      >>=-accept (scalarmult_base_or sodium Refusal.no_ephemeral_key r) _ tt h in
    let (_, same_ephemeral, h₂) =
      >>=-accept
        (refuse_if (not (bytes_eq out.ephemeral_public_key ephemeral)) Refusal.wrong_ephemeral_key)
        _ tt h₁ in
    let (_, _, h₃) =
      >>=-accept (refuse_if (all_zero dep.recipient_view_pub) Refusal.no_recipient) _ tt h₂ in
    let (_, _, h₄) =
      >>=-accept
        (refuse_if
          (not (sodium.is_valid_point dep.recipient_view_pub)
            || not (sodium.is_valid_point dep.recipient_spend_pub))
          Refusal.bad_recipient)
        _ tt h₃ in
    let (shared, multiplied, h₅) =
      >>=-accept (or_refuse (sodium.scalarmult r dep.recipient_view_pub) Refusal.no_shared_point) _
        tt h₄ in
    let s = sodium.scalar_reduce (sodium.generichash 64 shared) in
    let (hashed, based, h₆) =
      >>=-accept (scalarmult_base_or sodium Refusal.no_hash_point s) _ tt h₅ in
    let (destination, added, h₇) =
      >>=-accept
        (or_refuse (sodium.point_add hashed dep.recipient_spend_pub) Refusal.no_destination) _ tt
        h₆ in
    let (_, same_destination, _) =
      >>=-accept
        (refuse_if (not (bytes_eq out.destination_one_time destination)) Refusal.wrong_destination)
        _ tt h₇ in
    let sum : sodium.point_add (sodium.scalarmult_base s) dep.recipient_spend_pub
        ≡ some destination =
      rw (if_some-accept _ (sodium.scalarmult_base s) Refusal.no_hash_point hashed based)
        (or_refuse-accept _ Refusal.no_destination destination added) in
    let e =
      (bytes_eq_iff out.ephemeral_public_key ephemeral).0
        (refuse_if-not-accept _ _ tt same_ephemeral) in
    let d =
      (bytes_eq_iff out.destination_one_time destination).0
        (refuse_if-not-accept _ _ tt same_destination) in
    let b = if_some-accept _ (sodium.scalarmult_base r) Refusal.no_ephemeral_key ephemeral drawn in
    rw (or_refuse-accept _ Refusal.no_shared_point shared multiplied, sum, b)
      (ap ok (same_output ephemeral destination out e d))
