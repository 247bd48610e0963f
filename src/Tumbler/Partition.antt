-- ===== src/Tumbler/Partition.antt =====
-- src/tumbler.cpp: `partition_amount` loses nothing.
use cryptopeg.Prelude.{
  ℕ, zero, suc, ◌+◌, ◌-◌, ◌%◌, ◌^◌, ◌≤◌, ◌<◌, ◌≡◌, refl, true, false, arith, List, [], ◌∷◌, length,
  All, inl, inr, leb, ltb, le→ltb, ◌||◌, ◌⊎◌,
}
use cryptopeg.Tumbler.{spread, partition_amount}

abbrev pub sum : List ℕ → ℕ
sum [] = 0
sum (x ∷ xs) = x + sum xs

few-cases : (total count : ℕ) → ((2 ≤ count) × (count ≤ total)) ⊎ ((count < 2) ⊎ (total < count))
few-cases total count = grind arith

few_test :
    (total count : ℕ) → (count < 2) ⊎ (total < count) → (leb count 1 || ltb total count) ≡ true
few_test total count h = ground arith

lt→leb : (count : ℕ) → 2 ≤ count → leb count 1 ≡ false
lt→leb count h = ground arith

module _ (portion : ℕ → ℕ → ℕ) where
  -- In the arithmetic of `uint64_t`, whatever the portions.
  spread_wraps :
      (n i remaining : ℕ)
      → ((j r : ℕ) → portion j r < 2 ^ 64)
      → sum (spread portion n i remaining) % 2 ^ 64 ≡ (remaining + suc n) % 2 ^ 64
  unfolding spread
  spread_wraps zero i remaining small = omega arith
  spread_wraps (suc n) i remaining small = omega (
    arith,
    small i remaining,
    spread_wraps n (i + 1) ((remaining + 2 ^ 64 - portion i remaining) % 2 ^ 64) small,
  )

  pub partition_wraps :
      (total count : ℕ)
      → ((j r : ℕ) → portion j r < 2 ^ 64)
      → sum (partition_amount portion total count) % 2 ^ 64 ≡ total % 2 ^ 64
  unfolding partition_amount
  partition_wraps total count small =
      ground (arith, spread_wraps (count - 1) 0 (total - count) small)

  spread_exact :
      (n i remaining : ℕ)
      → ((j r : ℕ) → portion j r ≤ r)
      → remaining + suc n < 2 ^ 64
      → (sum (spread portion n i remaining) ≡ remaining + suc n)
        × (length (spread portion n i remaining) ≡ suc n)
        × All (λ part. 1 ≤ part) (spread portion n i remaining)
  unfolding spread
  spread_exact zero i remaining within fits = omega arith
  spread_exact (suc n) i remaining within fits =
      let (total, size, positive) =
        spread_exact n (i + 1) (remaining - portion i remaining) within
          (omega (arith, within i remaining)) in
      rw left (
        omega (arith, within i remaining),
        omega arith,
        (omega (arith, within i remaining), positive),
      )
    where
      left : (remaining + 2 ^ 64 - portion i remaining) % 2 ^ 64 ≡ remaining - portion i remaining
      left = omega (arith, within i remaining)

  -- Where no portion exceeds what remains, a partition of a positive amount is of as many fragments
  -- as asked for, or of one if these are more than the amount or fewer than two. Each
  -- fragment has one unit at least, and together they are the amount.
  pub partition_amount_lem :
      (total count : ℕ)
      → ((j r : ℕ) → portion j r ≤ r)
      → 1 ≤ total
      → total < 2 ^ 64
      → let parts = partition_amount portion total count in
        (sum parts ≡ total)
        × All (λ part. 1 ≤ part) parts
        × (((2 ≤ count) × (count ≤ total) × (length parts ≡ count))
            ⊎ (((count < 2) ⊎ (total < count)) × (length parts ≡ 1)))
  unfolding partition_amount
  partition_amount_lem total count within some_units fits = elim (few-cases total count) [
    | inl (two, few) ↦
        rw (lt→leb count two, le→ltb total count few)
          (let (whole, size, positive) =
              spread_exact (count - 1) 0 (total - count) within (omega arith) in
            (omega arith, positive, inl (two, few, omega arith)))
    | inr one ↦ rw (few_test total count one) (omega arith, (some_units, tt), inr (one, refl))
  ]
