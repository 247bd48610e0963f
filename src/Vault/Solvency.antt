-- ===== src/Vault/Solvency.antt =====
-- src/vault.cpp: what each operation does on a solvent vault, on every branch.
use cryptopeg.Prelude.{
  ℕ, ◌+◌, ◌-◌, ◌*◌, ◌/◌, ◌^◌, ◌≤◌, ◌<◌, ◌≡◌, true, false, arith, List, ◌⊎◌, inl, inr, Bool-cases,
}
use cryptopeg.Errors.{Error, Result, ok, err}
use cryptopeg.Amount.{max_transaction_amount, safe_fee_calc}
use cryptopeg.Amount.Fees.{fee-le, safe_fee_calc_limit}
use cryptopeg.Hex.{is_valid_evm_address}
use cryptopeg.Vault.{
  Vault, DepositReceipt, WithdrawalReceipt, ClaimReceipt, deposit, request_withdrawal, claim_fees,
}

-- Backed one to one, in numbers of 64 bits, with rates of at most 100%.
pub record IsSolvent (v : Vault) : Type 0 where
  pub backed : v.total_collateral ≡ v.circulating_supply + v.fee_pool_reserve
  pub fits : v.total_collateral < 2 ^ 64
  pub deposit_rate : v.deposit_fee_bps ≤ 10000
  pub withdraw_rate : v.withdraw_fee_bps ≤ 10000

-- The fee on an amount, in basis points, rounded down.
abbrev pub fee_of : ℕ → ℕ → ℕ
fee_of amount bps = amount * bps / 10000

abbrev pub vault_after_deposit : ℕ → Vault → Vault
vault_after_deposit g v = record v {
  total_collateral = v.total_collateral + g;
  circulating_supply = v.circulating_supply + (g - fee_of g v.deposit_fee_bps);
  fee_pool_reserve = v.fee_pool_reserve + fee_of g v.deposit_fee_bps;
}

abbrev pub vault_after_withdrawal : ℕ → Vault → Vault
vault_after_withdrawal t v = record v {
  total_collateral = v.total_collateral - (t - fee_of t v.withdraw_fee_bps);
  circulating_supply = v.circulating_supply - t;
  fee_pool_reserve = v.fee_pool_reserve + fee_of t v.withdraw_fee_bps;
}

abbrev pub vault_after_claim : ℕ → Vault → Vault
vault_after_claim a v = record v {
  total_collateral = v.total_collateral - a;
  fee_pool_reserve = v.fee_pool_reserve - a;
}

-- The call threw `e` and changed nothing.
abbrev pub Refused : {A : Type 0} → Error → Vault → Result A × Vault → Type 0
Refused e v r = r ≡ (err e, v)

-- The call returned a receipt that satisfies `P`, and left the vault `v'`.
abbrev pub Returned : {A : Type 0} → (A → Type 0) → Vault → Result A × Vault → Type 0
Returned P v' (ok a, w) = P a × (w ≡ v')
Returned P v' (err e, w) = ⊥

-- The tests that all three operations begin with, and the comparison of `n` with a limit.
amount-cases :
    (a n limit : ℕ)
    → (a ≡ 0)
      ⊎ (max_transaction_amount < a)
      ⊎ ((0 < a) × (a ≤ max_transaction_amount) × (limit ≤ n))
      ⊎ ((0 < a) × (a ≤ max_transaction_amount) × (n < limit))
amount-cases a n limit = grind arith

-- The cases of `deposit`, with what each does.
abbrev pub DepositCases : ℕ → List ℕ → List ℕ → Vault → Type 0
DepositCases g custom random v =
    ((g ≡ 0) × Refused Error.deposit_zero v (deposit g custom random v))
    ⊎ ((max_transaction_amount < g) × Refused Error.deposit_too_large v (deposit g custom random v))
    ⊎ ((0 < g)
        × (g ≤ max_transaction_amount)
        × (2 ^ 64 ≤ v.total_collateral + g)
        × Refused Error.deposit_overflow v (deposit g custom random v))
    ⊎ ((0 < g)
        × (g ≤ max_transaction_amount)
        × (v.total_collateral + g < 2 ^ 64)
        × Returned
            (λ (r : DepositReceipt).
              (r.gross_usdt_deposited ≡ g)
              × (r.fee_to_pool ≡ fee_of g v.deposit_fee_bps)
              × (r.net_shielded_tokens_minted + r.fee_to_pool ≡ g))
            (vault_after_deposit g v) (deposit g custom random v))

module _ (g : ℕ) (custom random : List ℕ) (v : Vault) (s : IsSolvent v) where
  -- On a solvent vault a deposit is refused, with nothing changed, if it is 0, above the protocol's
  -- limit, or takes the collateral past 64 bits. Otherwise it returns a receipt whose net amount
  -- and fee add up to the deposit, the fee being the rate's share rounded down, and moves the
  -- balances by these.
  pub deposit_lem : DepositCases g custom random v
  unfolding deposit
  deposit_lem = elim (amount-cases g (v.total_collateral + g) (2 ^ 64)) [
    | inl zero_amount ↦ inl (zero_amount, ground arith)
    | inr (inl large) ↦ inr (inl (large, ground arith))
    | inr (inr (inl (p, m, over))) ↦
        inr (inr (inl (p, m, over, ground (arith, fee, fee-le g v.deposit_fee_bps s.deposit_rate))))
    | inr (inr (inr (p, m, fits))) ↦
        inr (inr (inr (p, m, fits, ground (arith, fee, fee-le g v.deposit_fee_bps s.deposit_rate))))
  ]
    where
      fee :
          g ≤ max_transaction_amount
          → safe_fee_calc g v.deposit_fee_bps ≡ ok (fee_of g v.deposit_fee_bps)
      fee = safe_fee_calc_limit g v.deposit_fee_bps s.deposit_rate

-- The cases of `request_withdrawal`, with what each does.
abbrev pub WithdrawalCases : ℕ → List ℕ → Vault → Type 0
WithdrawalCases t order_bytes v =
    ((t ≡ 0) × Refused Error.withdraw_zero v (request_withdrawal t order_bytes v))
    ⊎ ((max_transaction_amount < t)
        × Refused Error.withdraw_too_large v (request_withdrawal t order_bytes v))
    ⊎ ((0 < t)
        × (t ≤ max_transaction_amount)
        × (v.circulating_supply < t)
        × Refused Error.insufficient_supply v (request_withdrawal t order_bytes v))
    ⊎ ((0 < t)
        × (t ≤ max_transaction_amount)
        × (t ≤ v.circulating_supply)
        × Returned
            (λ (r : WithdrawalReceipt).
              (r.gross_tokens_burned ≡ t)
              × (r.fee_to_pool ≡ fee_of t v.withdraw_fee_bps)
              × (r.net_usdt_to_tumble + r.fee_to_pool ≡ t))
            (vault_after_withdrawal t v) (request_withdrawal t order_bytes v))

module _ (t : ℕ) (order_bytes : List ℕ) (v : Vault) (s : IsSolvent v) where
  -- On a solvent vault a withdrawal is refused, with nothing changed, exactly if it is 0, above the
  -- protocol's limit, or above the circulating supply: solvency rules the other exceptions out.
  -- Otherwise the tokens burned are the sum of the fee, the rate's share rounded down, and of
  -- the amount paid out, which leaves the collateral.
  pub request_withdrawal_lem : WithdrawalCases t order_bytes v
  unfolding request_withdrawal
  request_withdrawal_lem = elim (amount-cases t t (v.circulating_supply + 1)) [
    | inl zero_amount ↦ inl (zero_amount, ground arith)
    | inr (inl large) ↦ inr (inl (large, ground arith))
    | inr (inr (inl (p, m, over))) ↦ inr (inr (inl (p, m, omega arith, ground arith)))
    | inr (inr (inr (p, m, fits))) ↦ inr (
        inr (
          inr (
            p,
            m,
            omega arith,
            ground (
              arith,
              safe_fee_calc_limit t v.withdraw_fee_bps s.withdraw_rate,
              fee-le t v.withdraw_fee_bps s.withdraw_rate,
            ),
          )))
  ]

-- The cases of `claim_fees`, with what each does.
abbrev pub ClaimCases : ℕ → List ℕ → List ℕ → Vault → Type 0
ClaimCases a address tx_bytes v =
    ((a ≡ 0) × Refused Error.claim_zero v (claim_fees a address tx_bytes v))
    ⊎ ((max_transaction_amount < a)
        × Refused Error.claim_too_large v (claim_fees a address tx_bytes v))
    ⊎ ((0 < a)
        × (a ≤ max_transaction_amount)
        × (is_valid_evm_address address ≡ false)
        × Refused Error.bad_treasury_address v (claim_fees a address tx_bytes v))
    ⊎ ((0 < a)
        × (a ≤ max_transaction_amount)
        × (is_valid_evm_address address ≡ true)
        × (v.fee_pool_reserve < a)
        × Refused Error.insufficient_fee_pool v (claim_fees a address tx_bytes v))
    ⊎ ((0 < a)
        × (a ≤ max_transaction_amount)
        × (is_valid_evm_address address ≡ true)
        × (a ≤ v.fee_pool_reserve)
        × Returned
            (λ (r : ClaimReceipt).
              (r.amount_claimed ≡ a) × (r.remaining_fee_pool + a ≡ v.fee_pool_reserve))
            (vault_after_claim a v) (claim_fees a address tx_bytes v))

module _ (a : ℕ) (address tx_bytes : List ℕ) (v : Vault) (s : IsSolvent v) where
  -- On a solvent vault a claim of fees is refused, with nothing changed, if it is 0, above the
  -- protocol's limit, for an invalid address, or above the fee pool, tested in this order. Otherwise
  -- it takes the amount from the pool and the collateral, and leaves the circulating supply alone.
  pub claim_fees_lem : ClaimCases a address tx_bytes v
  unfolding claim_fees
  claim_fees_lem = elim (amount-cases a a (v.fee_pool_reserve + 1)) [
    | inl zero_amount ↦ inl (zero_amount, ground arith)
    | inr (inl large) ↦ inr (inl (large, ground arith))
    | inr (inr (inl (p, m, over))) ↦ elim (Bool-cases (is_valid_evm_address address)) [
      | inl good ↦ inr (inr (inr (inl (p, m, good, omega arith, ground arith))))
      | inr bad ↦ inr (inr (inl (p, m, bad, ground arith)))
    ]
    | inr (inr (inr (p, m, fits))) ↦ elim (Bool-cases (is_valid_evm_address address)) [
      | inl good ↦ inr (inr (inr (inr (p, m, good, omega arith, ground arith))))
      | inr bad ↦ inr (inr (inl (p, m, bad, ground arith)))
    ]
  ]
