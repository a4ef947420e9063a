-- ===== src/Auth/Exec.antt =====
-- Methods over a database connection that may raise. What was written before a raise stays written,
-- unless a transaction rolls it back.
pub mod Keeps
use zglab_rag.Prelude.{Bool, true, false, Option, none, some, ◌≡◌, refl, ap, ◌⊎◌, inl, inr}
use zglab_rag.Auth.Models.{AuthError}

pub data Result {ℓ} (A : Type ℓ) : Type ℓ where
  ok : A → Result A
  err : AuthError → Result A

abbrev pub Exec {ℓ} : Type ℓ → Type ℓ → Type ℓ
Exec S A = S → Result A × S

module _ {ℓ} {S A : Type ℓ} where
  abbrev pub pure : A → Exec S A
  pure a s = (ok a, s)

  abbrev pub raise : AuthError → Exec S A
  raise e s = (err e, s)

  -- The value, or the exception that the code raises where there is none.
  abbrev pub some_or : Option A → AuthError → Exec S A
  some_or none e s = (err e, s)
  some_or (some a) e s = (ok a, s)

  abbrev pub gets : (S → A) → Exec S A
  gets f s = (ok (f s), s)

  abbrev pub settle : S → Result A × S → Result A × S
  settle s (ok a, s') = (ok a, s')
  settle s (err e, s') = (err e, s)

  -- `BEGIN IMMEDIATE … commit`, with `rollback` on an exception
  abbrev pub transaction : Exec S A → Exec S A
  transaction m s = settle s (m s)

module _ {ℓ} {S : Type ℓ} where
  abbrev pub modify : (S → S) → Exec S (Unit {ℓ})
  modify f s = (ok tt, f s)

  -- `if not b: raise e`
  abbrev pub require : Bool → AuthError → Exec S (Unit {ℓ})
  require true e s = (ok tt, s)
  require false e s = (err e, s)

module _ {ℓ} {S A B : Type ℓ} where
  abbrev pub continue : (A → Exec S B) → Result A × S → Result B × S
  continue f (ok a, s) = f a s
  continue f (err e, s) = (err e, s)

  infixl 10 ◌>>=◌ ◌>>◌
  abbrev pub ◌>>=◌ : Exec S A → (A → Exec S B) → Exec S B
  ◌>>=◌ m f s = continue f (m s)

  abbrev pub ◌>>◌ : Exec S A → Exec S B → Exec S B
  m >> n = m >>= λ _. n

pub Result-cases {ℓ} :
    {A : Type ℓ} (r : Result A) → ((a : A) × (r ≡ ok a)) ⊎ ((e : AuthError) × (r ≡ err e))
Result-cases (ok a) = inl (a, refl)
Result-cases (err e) = inr (e, refl)

-- A method that returns has returned at each of its steps.
module _ {ℓ} {S A B : Type ℓ} (f : A → Exec S B) (b : B) (s' : S) where
  continue_ok :
      (r : Result A) (s : S)
      → continue f (r, s) ≡ (ok b, s')
      → (a : A) × (r ≡ ok a) × (f a s ≡ (ok b, s'))
  continue_ok (ok a) s h = (a, refl, h)
  continue_ok (err e) s h = cc

  pub bind_ok :
      (m : Exec S A) (s : S)
      → (m >>= f) s ≡ (ok b, s')
      → (a : A) × (s₁ : S) × (m s ≡ (ok a, s₁)) × (f a s₁ ≡ (ok b, s'))
  bind_ok m s h =
      let (a, r, k) = continue_ok (m s).0 (m s).1 h in (a, (m s).1, (λ i. (r i, (m s).1)), k)

pub require_ok {ℓ} :
    {S : Type ℓ} (b : Bool) (e : AuthError) (s s' : S) (u : Unit {ℓ})
    → require b e s ≡ (ok u, s')
    → (b ≡ true) × (s ≡ s')
require_ok true e s s' u h = (refl, ap (λ p. p.1) h)
require_ok false e s s' u h = cc

pub some_or_ok {ℓ} :
    {S A : Type ℓ} (o : Option A) (e : AuthError) (s s' : S) (a : A)
    → some_or o e s ≡ (ok a, s')
    → (o ≡ some a) × (s ≡ s')
some_or_ok none e s s' a h = cc
some_or_ok (some x) e s s' a h = (cc, ap (λ p. p.1) h)
