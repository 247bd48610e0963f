-- ===== src/Database/Lookup.antt =====
-- src/blockchain_db.cpp: what is found in a table after the loops that put and delete.
use cryptopeg.Prelude.{
  ℕ, ◌≡◌, refl, ap, ◌∙◌, ◌==◌, arith, Option, none, some, Option-cases, List, [], ◌∷◌, length,
  if◌then◌else◌, bytes_eq, bytes_eq_iff, Bool-cases, inl, inr,
}
use cryptopeg.Errors.{Error, Result, ok, err, ◌>>=◌}
use cryptopeg.Vault.{DepositReceipt}
use cryptopeg.Block.{OneTimeOutput}
use cryptopeg.Block.Encode.{serialize_output}
use cryptopeg.Quorum.{contains_key}
use cryptopeg.KeyImages.{canonical_key_image}
use cryptopeg.Sodium.{Sodium}
use cryptopeg.Lmdb.{Lmdb, IsMap, NeverFull}
use cryptopeg.Database.Commit.{put_or, put_images, put_utxos, put_deposits}
use cryptopeg.Database.Rollback.{or_same, del_all, deposit_keys}

-- A sequence that returns has a first part that returns, and a rest that does.
pub >>=-ok :
    {A B : Type 0} (m : Result A) (f : A → Result B) (b : B)
    → (m >>= f) ≡ ok b
    → (a : A) × (m ≡ ok a) × (f a ≡ ok b)
>>=-ok (ok a) f b e = (a, refl, e)
>>=-ok (err x) f b e = cc (e)

unfoldable pub canonical_images : Sodium → List (List ℕ) → List (List ℕ)
canonical_images sodium [] = []
canonical_images sodium (image ∷ images) =
    canonical_key_image sodium image ∷ canonical_images sodium images

-- The bytes of the last output with a destination, or else what was there.
unfoldable pub last_output : List ℕ → List OneTimeOutput → Option (List ℕ) → Option (List ℕ)
last_output q [] before = before
last_output q (out ∷ outs) before =
    last_output q outs
      (if bytes_eq out.destination_one_time q then some (serialize_output [] out) else before)

module _ (sodium : Sodium) (lmdb : Lmdb) (map : IsMap lmdb) where
  put_or_ok :
      (e : Error) (o : Option lmdb.Table) (t : lmdb.Table)
      → put_or sodium lmdb e o ≡ ok t
      → o ≡ some t
  put_or_ok e none t h = cc (h)
  put_or_ok e (some t') t h = cc (h)

  pub put_or_get :
      (e : Error) (k v q : List ℕ) (t t' : lmdb.Table)
      → put_or sodium lmdb e (lmdb.put k v t) ≡ ok t'
      → lmdb.get q t' ≡ (if bytes_eq k q then some v else lmdb.get q t)
  put_or_get e k v q t t' h = map.get_put k v q t t' (put_or_ok e (lmdb.put k v t) t' h)

  pub put_images_get :
      (height q : List ℕ) (images : List (List ℕ)) (t t' : lmdb.Table)
      → put_images sodium lmdb height images t ≡ ok t'
      → lmdb.get q t'
        ≡ (if contains_key (canonical_images sodium images) q then some height else lmdb.get q t)
  unfolding put_images canonical_images contains_key
  put_images_get height q [] t t' h = cc (h)
  put_images_get height q (image ∷ images) t t' h =
      let (t₁, first, rest) =
        >>=-ok
          (put_or sodium lmdb Error.put_image_failed
            (lmdb.put (canonical_key_image sodium image) height t))
          _ t' h in
      ground (
        arith,
        put_or_get Error.put_image_failed (canonical_key_image sodium image) height q t t₁ first,
        put_images_get height q images t₁ t' rest,
      )

  pub put_utxos_get :
      (q : List ℕ) (outs : List OneTimeOutput) (t t' : lmdb.Table)
      → put_utxos sodium lmdb outs t ≡ ok t'
      → lmdb.get q t' ≡ last_output q outs (lmdb.get q t)
  unfolding put_utxos last_output
  put_utxos_get q [] t t' h = cc (h)
  put_utxos_get q (out ∷ outs) t t' h =
      let (t₁, first, rest) = >>=-ok _ _ t' h in
      put_utxos_get q outs t₁ t' rest
      ∙ ap (last_output q outs) (
          put_or_get Error.put_utxo_failed out.destination_one_time (serialize_output [] out) q t t₁
            first)

  pub put_deposits_get :
      (height q : List ℕ) (deps : List DepositReceipt) (t t' : lmdb.Table)
      → put_deposits sodium lmdb height deps t ≡ ok t'
      → lmdb.get q t' ≡ (if contains_key (deposit_keys deps) q then some height else lmdb.get q t)
  unfolding put_deposits deposit_keys contains_key
  put_deposits_get height q [] t t' h = cc (h)
  put_deposits_get height q (dep ∷ deps) t t' h = elim (Bool-cases (length dep.tx_hash == 0)) [
    | inl empty ↦ rw empty (put_deposits_get height q deps t t' (rw empty at h))
    | inr full ↦
        let (t₁, first, rest) =
          >>=-ok (put_or sodium lmdb Error.put_deposit_failed (lmdb.put dep.tx_hash height t)) _ t'
            (rw full at h) in
        rw full (
          ground (
            arith,
            put_or_get Error.put_deposit_failed dep.tx_hash height q t t₁ first,
            put_deposits_get height q deps t₁ t' rest,
          ))
  ]

  pub or_same_get :
      (full : NeverFull lmdb) (k q : List ℕ) (t : lmdb.Table)
      → lmdb.get q (or_same sodium lmdb (lmdb.del k t) t)
        ≡ (if bytes_eq k q then none else lmdb.get q t)
  or_same_get full k q t = elim (Option-cases (lmdb.del k t)) [
    | inl absent ↦ rw absent (ground (arith, full.del_absent k t absent, bytes_eq_iff k q))
    | inr (t', deleted) ↦ rw deleted (map.get_del k q t t' deleted)
  ]

  pub del_all_get :
      (full : NeverFull lmdb) (ks : List (List ℕ)) (q : List ℕ) (t : lmdb.Table)
      → lmdb.get q (del_all sodium lmdb ks t) ≡ (if contains_key ks q then none else lmdb.get q t)
  unfolding del_all contains_key
  del_all_get full [] q t = refl
  del_all_get full (k ∷ ks) q t =
      ground (
        arith,
        del_all_get full ks q (or_same sodium lmdb (lmdb.del k t) t),
        or_same_get full k q t,
      )
