-- ===== src/Node/Accepted.antt =====
-- src/node.cpp: what it takes for a chain of tests to accept.
use cryptopeg.Prelude.{
  ℕ, ◌≡◌, refl, Bool, true, false, not, Option, none, some, List, if◌then◌else◌,
}
use cryptopeg.Errors.{Result, ok, err}
use cryptopeg.Vault.{Vault}
use cryptopeg.Node.{Refusal, Verdict, refuse, accept, ◌>>=◌, refuse_if, or_refuse, uncaught}
use cryptopeg.Node.Deposits.{vault_after}

-- A chain that accepts has a first part that accepts, and a rest that does.
pub >>=-accept :
    {A B : Type 0} (m : Verdict A) (f : A → Verdict B) (b : B)
    → (m >>= f) ≡ accept b
    → (a : A) × (m ≡ accept a) × (f a ≡ accept b)
>>=-accept (accept a) f b h = (a, refl, h)
>>=-accept (refuse r) f b h = cc (h)

pub accept_injective : {A : Type 0} (a b : A) → accept a ≡ accept b → a ≡ b
accept_injective a b e = cc (e)

pub refuse_if-accept :
    (c : Bool) (r : Refusal) (u : Unit {0}) → refuse_if c r ≡ accept u → c ≡ false
refuse_if-accept true r u h = cc (h)
refuse_if-accept false r u h = refl

pub refuse_if-not-accept :
    (c : Bool) (r : Refusal) (u : Unit {0}) → refuse_if (not c) r ≡ accept u → c ≡ true
refuse_if-not-accept true r u h = refl
refuse_if-not-accept false r u h = cc (h)

pub or_refuse-accept :
    (o : Option (List ℕ)) (r : Refusal) (p : List ℕ) → or_refuse o r ≡ accept p → o ≡ some p
or_refuse-accept none r p h = cc (h)
or_refuse-accept (some q) r p h = cc (h)

pub if_some-accept :
    (c : Bool) (q : List ℕ) (r : Refusal) (p : List ℕ)
    → or_refuse (if c then some q else none) r ≡ accept p
    → q ≡ p
if_some-accept true q r p h = cc (h)
if_some-accept false q r p h = cc (h)

pub uncaught-accept : {A : Type 0} (m : Result A) (a : A) → uncaught m ≡ accept a → m ≡ ok a
uncaught-accept (err e) a h = cc (h)
uncaught-accept (ok b) a h = cc (h)

pub vault_after-accept :
    {A : Type 0} (r : Refusal) (m : Result A × Vault) (v : Vault)
    → vault_after r m ≡ accept v
    → (a : A) × (m ≡ (ok a, v))
vault_after-accept r (err e, w) v h = cc (h)
vault_after-accept r (ok a, w) v h = (a, cc (h))
