-- ===== src/Node/Treasury.antt =====
-- src/node.cpp: `claim_treasury_fees`.
use cryptopeg.Prelude.{ℕ, ◌+◌, ◌<◌, ◌^◌, ◌≡◌, ap, arith, Bool, true, List}
use cryptopeg.Errors.{Result, ok, err}
use cryptopeg.Vault.{ClaimReceipt, Vault, claim_fees}
use cryptopeg.Vault.Solvency.{IsSolvent}
use cryptopeg.Sodium.{Sodium}
use cryptopeg.Lmdb.{Lmdb, IsMap, Txn}
use cryptopeg.Database.{save_vault_state}
use cryptopeg.Database.Restart.{load_vault_state-save_vault_state}
use cryptopeg.Node.{Node, recover_state_from_db}

claim_fees-ok :
    (a : ℕ) (address tx_bytes : List ℕ) (v v' : Vault) (receipt : ClaimReceipt)
    → IsSolvent v
    → claim_fees a address tx_bytes v ≡ (ok receipt, v')
    → IsSolvent v' × (v'.total_collateral + receipt.amount_claimed ≡ v.total_collateral)
unfolding claim_fees
claim_fees-ok a address tx_bytes v v' receipt s h = ground arith

supply_fits : (v : Vault) → IsSolvent v → v.circulating_supply < 2 ^ 64
supply_fits v s = omega (arith, s.backed, s.fits)

pool_fits : (v : Vault) → IsSolvent v → v.fee_pool_reserve < 2 ^ 64
pool_fits v s = omega (arith, s.backed, s.fits)

module _ (sodium : Sodium) (lmdb : Lmdb) where
  -- The vault after a claim, which is saved if it did not throw; whether it was is not read.
  abbrev pub saved_claim :
      Txn → Node sodium lmdb → Result ClaimReceipt × Vault → Result ClaimReceipt × Node sodium lmdb
  saved_claim writing node (err e, v) = (err e, record node { vault = v })
  saved_claim writing node (ok receipt, v) = (
    ok receipt,
    record node { vault = v; db = (save_vault_state sodium lmdb writing node.db v).1 },
  )

  unfoldable pub claim_treasury_fees :
      Txn → ℕ → List ℕ → List ℕ → Node sodium lmdb → Result ClaimReceipt × Node sodium lmdb
  claim_treasury_fees writing amount_to_claim destination_address tx_bytes node =
      saved_claim writing node (claim_fees amount_to_claim destination_address tx_bytes node.vault)

  saved_claim-ok :
      (writing : Txn) (node node' : Node sodium lmdb) (receipt : ClaimReceipt)
      (r : Result ClaimReceipt × Vault)
      → saved_claim writing node r ≡ (ok receipt, node')
      → (v : Vault) × (r ≡ (ok receipt, v))
        × (node'
            ≡ record node { vault = v; db = (save_vault_state sodium lmdb writing node.db v).1 })
  saved_claim-ok writing node node' receipt (err e, v) h = cc (h)
  saved_claim-ok writing node node' receipt (ok _, v) h = (v, cc (h), cc (h))

  -- A claim of fees from a solvent vault that returns, and whose vault was saved, leaves a node that
  -- reads from its database the vault that it has: the claim is not lost when the state is recovered,
  -- and the vault is solvent.
  pub claim_treasury_fees-recover_state_from_db :
      (map : IsMap lmdb) (writing reading : Txn) (a : ℕ) (address tx_bytes : List ℕ)
      (node node' : Node sodium lmdb) (receipt : ClaimReceipt)
      → IsSolvent node.vault
      → reading.begins ≡ true
      → claim_treasury_fees writing a address tx_bytes node ≡ (ok receipt, node')
      → (save_vault_state sodium lmdb writing node.db node'.vault).0 ≡ true
      → IsSolvent node'.vault
        × (node'.vault.total_collateral + receipt.amount_claimed ≡ node.vault.total_collateral)
        × ((recover_state_from_db sodium lmdb reading node').vault ≡ node'.vault)
  unfolding claim_treasury_fees recover_state_from_db
  claim_treasury_fees-recover_state_from_db map writing reading a address tx_bytes node node'
        receipt s readable h saved =
      let (v, claimed, after) = saved_claim-ok writing node node' receipt _ h in
      let (solvent, moved) = claim_fees-ok a address tx_bytes node.vault v receipt s claimed in
      rw after (
        solvent,
        moved,
        ap (λ (x : Bool × Vault). x.1)
            (load_vault_state-save_vault_state sodium lmdb map writing reading node.db v v readable
              (rw after at saved) solvent.fits (supply_fits v solvent) (pool_fits v solvent)),
      )
