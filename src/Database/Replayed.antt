-- ===== src/Database/Replayed.antt =====
-- src/blockchain_db.cpp: the metadata that `rollback_top_block` writes, and the vault in it.
use cryptopeg.Prelude.{
  ℕ, zero, suc, ◌≤◌, ◌≡◌, refl, ◌∙◌, arith, some, List, if◌then◌else◌, bytes_eq,
}
use cryptopeg.Errors.{Result, ok, err, ◌>>=◌}
use cryptopeg.Vault.{Vault}
use cryptopeg.Sodium.{Sodium}
use cryptopeg.Lmdb.{Lmdb, IsMap, NeverFull}
use cryptopeg.Database.{Tables, height_key, vault_bytes, top_height_key, vault_state_key}
use cryptopeg.Database.Rollback.{or_same, replay_height, replay_chain}
use cryptopeg.Database.Undo.{rolled_metadata}

>>=-cong :
    {A B : Type 0} (r r' : Result A) (f g : A → Result B)
    → r ≡ r'
    → ((a : A) → f a ≡ g a)
    → (r >>= f) ≡ (r' >>= g)
>>=-cong (err e) r' f g h same = rw (← h) refl
>>=-cong (ok a) r' f g h same = rw (← h) (same a)

module _ (sodium : Sodium) (lmdb : Lmdb) where
  -- Tables with the same blocks up to a height have the same vault there.
  pub replay_chain-same :
      (t t' : Tables sodium lmdb) (top : ℕ) (v : Vault)
      → ((k : ℕ) → k ≤ top → lmdb.get (height_key k) t.blocks ≡ lmdb.get (height_key k) t'.blocks)
      → replay_chain sodium lmdb t top v ≡ replay_chain sodium lmdb t' top v
  unfolding replay_chain replay_height
  replay_chain-same t t' zero v same = refl
  replay_chain-same t t' (suc top) v same =
      >>=-cong (replay_chain sodium lmdb t top v) (replay_chain sodium lmdb t' top v)
        (replay_height sodium lmdb t (suc top)) (replay_height sodium lmdb t' (suc top))
        (replay_chain-same t t' top v (λ k below. same k (omega arith)))
        (λ v'. rw (replay_height, same (suc top) (omega arith)) refl)

  module _ (map : IsMap lmdb) (full : NeverFull lmdb) where
    same_put_get :
        (k v q : List ℕ) (t : lmdb.Table)
        → lmdb.get q (or_same sodium lmdb (lmdb.put k v t) t)
          ≡ (if bytes_eq k q then some v else lmdb.get q t)
    same_put_get k v q t =
        let (t', written) = full.put_ok k v t in rw written (map.get_put k v q t t' written)

    pub rolled_metadata_get :
        (height : ℕ) (vault : Vault) (q : List ℕ) (t : lmdb.Table)
        → lmdb.get q (rolled_metadata sodium lmdb height vault t) ≡ (
            if bytes_eq vault_state_key q
            then some (vault_bytes vault)
            else if bytes_eq top_height_key q
            then some (height_key height)
            else lmdb.get q t)
    rolled_metadata_get height vault q t =
        same_put_get vault_state_key (vault_bytes vault) q _
        ∙ rw (same_put_get top_height_key (height_key height) q t) refl
