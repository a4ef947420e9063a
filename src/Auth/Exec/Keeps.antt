-- ===== src/Auth/Exec/Keeps.antt =====
-- Invariants of methods, one rule for each way to build a method.
use zglab_rag.Prelude.{Bool, true, false, Option, none, some}
use zglab_rag.Auth.Models.{AuthError}
use zglab_rag.Auth.Exec.{
  Exec, Result, ok, err, pure, raise, some_or, gets, modify, require, settle, transaction, continue,
  ◌>>=◌,
}

-- `m` keeps `P`, whether it returns or raises.
pub record Keeps {ℓ} {S A : Type ℓ} (P : S → Type ℓ) (method : Exec S A) : Type ℓ where
  pub at : (before : S) → P before → P (method before).1

settle_keeps {ℓ} :
    {S A : Type ℓ} (P : S → Type ℓ) (s : S) (r : Result A) (s' : S)
    → P s
    → P s'
    → P (settle s (r, s')).1
settle_keeps P s (ok a) s' h h' = h'
settle_keeps P s (err e) s' h h' = h

module _ {ℓ} {S A : Type ℓ} {P : S → Type ℓ} where
  pub Keeps-some_or : (o : Option A) (e : AuthError) → Keeps P (some_or o e)
  Keeps-some_or none e = record { at = λ s h. h }
  Keeps-some_or (some a) e = record { at = λ s h. h }

  pub Keeps-pure : (a : A) → Keeps P (pure a)
  Keeps-pure a = record { at = λ _ kept. kept }

  pub Keeps-transaction : (m : Exec S A) → Keeps P m → Keeps P (transaction m)
  Keeps-transaction m k = record {
    at = λ s h. let (r, s') = m s in settle_keeps P s r s' h (k.at s h);
  }

  pub Keeps-raise : (e : AuthError) → Keeps P (raise {A = A} e)
  Keeps-raise e = record { at = λ s h. h }

  pub Keeps-gets : (f : S → A) → Keeps P (gets f)
  Keeps-gets f = record { at = λ s h. h }

module _ {ℓ} {S : Type ℓ} {P : S → Type ℓ} where
  pub Keeps-modify : (f : S → S) → ((s : S) → P s → P (f s)) → Keeps P (modify f)
  Keeps-modify f k = record { at = k }

  pub Keeps-require : (b : Bool) (e : AuthError) → Keeps P (require b e)
  Keeps-require true e = record { at = λ s h. h }
  Keeps-require false e = record { at = λ s h. h }

module _ {ℓ} {S A B : Type ℓ} {P : S → Type ℓ} where
  continue_keeps :
      (f : A → Exec S B) (r : Result A) (s : S)
      → ((a : A) → Keeps P (f a))
      → P s
      → P (continue f (r, s)).1
  continue_keeps f (ok a) s k h = (k a).at s h
  continue_keeps f (err e) s k h = h

  pub Keeps-bind :
      (step : Exec S A) (rest : A → Exec S B)
      → Keeps P step
      → ((a : A) → Keeps P (rest a))
      → Keeps P (step >>= rest)
  Keeps-bind step rest one others = record {
    at = λ s h. continue_keeps rest (step s).0 (step s).1 others (one.at s h);
  }

pub ruleset keeps_rules = (
  Keeps-pure, Keeps-raise, Keeps-gets, Keeps-some_or, Keeps-transaction, Keeps-modify,
  Keeps-require, Keeps-bind,
)
