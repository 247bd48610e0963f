-- ===== src/Database/Restored.antt =====
-- src/blockchain_db.cpp: what is put under a test and deleted under the same.
use cryptopeg.Prelude.{
  ℕ, ◌<◌, ◌≡◌, refl, ◌∙◌, arith, Bool, true, false, ◌&&◌, not, ◌==◌, Option, none, some, List, [],
  ◌∷◌, if◌then◌else◌, bytes_eq, Bool-cases, inl, inr,
}
use cryptopeg.Block.{OneTimeOutput}
use cryptopeg.Quorum.{contains_key}
use cryptopeg.Sodium.{Sodium}
use cryptopeg.Lmdb.{Lmdb}
use cryptopeg.Database.{is_some, block_of}
use cryptopeg.Database.Lookup.{last_output}
use cryptopeg.Database.Rollback.{output_keys}

pub ne_above : (a b : ℕ) → b < a → (a == b) ≡ false
ne_above a b e = ground arith

-- A value that is put twice under two tests.
pub twice :
    (c d : Bool) (v h v' h' : List ℕ) (x : Option (List ℕ))
    → (if c then some v' else if d then some h' else if c then some v else if d then some h else x)
      ≡ (if c then some v' else if d then some h' else x)
twice true d v h v' h' x = refl
twice false true v h v' h' x = refl
twice false false v h v' h' x = refl

pub last_output-absent :
    (q : List ℕ) (outs : List OneTimeOutput) (before : Option (List ℕ))
    → contains_key (output_keys outs) q ≡ false
    → last_output q outs before ≡ before
unfolding last_output output_keys contains_key
last_output-absent q [] before absent = refl
last_output-absent q (out ∷ outs) before absent =
    elim (Bool-cases (bytes_eq out.destination_one_time q)) [
      | inl same ↦ cc (rw same at absent)
      | inr other ↦ rw other (last_output-absent q outs before (rw other at absent))
    ]

module _ (sodium : Sodium) (lmdb : Lmdb) where
  -- The readers of a value that was put under a test and deleted under the same.
  pub is_some-undone :
      (c : Bool) (v : List ℕ) (x y z : Option (List ℕ))
      → x ≡ (if c then none else y)
      → y ≡ (if c then some v else z)
      → is_some x ≡ (not c && is_some z)
  is_some-undone true v x y z ex ey = rw ex refl
  is_some-undone false v x y z ex ey = rw (ex, ey) refl

  pub get-undone :
      (c : Bool) (x y z : Option (List ℕ))
      → x ≡ (if c then none else y)
      → (c ≡ false → y ≡ z)
      → x ≡ (if c then none else z)
  get-undone true x y z ex ey = ex
  get-undone false x y z ex ey = ex ∙ ey refl

  pub block_of-undone :
      (c : Bool) (v : List ℕ) (x y z : Option (List ℕ))
      → x ≡ (if c then none else y)
      → y ≡ (if c then some v else z)
      → block_of sodium lmdb x ≡ (if c then none else block_of sodium lmdb z)
  block_of-undone true v x y z ex ey = rw ex refl
  block_of-undone false v x y z ex ey = rw (ex, ey) refl
