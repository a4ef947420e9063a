-- ===== src/Prelude/Entries.antt =====
-- What holds of every entry of a `dict`, and of what is left of it.
use mathlib.Core.Path.{◌≡◌, ap}
use mathlib.Core.Logic.{inl, inr}
use mathlib.Core.Bool.{Bool, true, false}
use mathlib.Core.Option.{some}
use mathlib.Core.List.{List, [], ◌∷◌}
use zglab_rag.Prelude.Tests.{Eq, ◌==◌, Bool-cases}
use zglab_rag.Prelude.Lists.{All, keep}
use zglab_rag.Prelude.Dict.{Dict, lookup, insert, remove}

-- What is kept had the property before, and has that of the test.
module _ {ℓ κ} {A : Type ℓ} (P : A → Type κ) (p : A → Bool) where
  pub All-keep : (xs : List A) → All P xs → All P (keep p xs)
  All-keep [] h = tt
  All-keep (x ∷ xs) h = elim (Bool-cases (p x)) [
    | inl t ↦ rw t (h.0, All-keep xs h.1)
    | inr t ↦ rw t (All-keep xs h.1)
  ]

pub All-weaken {ℓ κ μ} :
    {A : Type ℓ} (P : A → Type κ) (Q : A → Type μ) (xs : List A)
    → ((x : A) → P x → Q x)
    → All P xs
    → All Q xs
All-weaken P Q [] f h = tt
All-weaken P Q (x ∷ xs) f h = (f x h.0, All-weaken P Q xs f h.1)

pub All-both {ℓ κ μ} :
    {A : Type ℓ} (P : A → Type κ) (Q : A → Type μ) (xs : List A)
    → All P xs
    → All Q xs
    → All (λ x. P x × Q x) xs
All-both P Q [] h k = tt
All-both P Q (x ∷ xs) h k = ((h.0, k.0), All-both P Q xs h.1 k.1)

pub All-keep_test {ℓ} :
    {A : Type ℓ} (p : A → Bool) (xs : List A) → All (λ x. p x ≡ true) (keep p xs)
All-keep_test p [] = tt
All-keep_test p (x ∷ xs) = elim (Bool-cases (p x)) [
  | inl t ↦ rw t (t, All-keep_test p xs)
  | inr t ↦ rw t (All-keep_test p xs)
]

module _ {ℓ κ μ} {K : Type ℓ} {V : Type κ} ⦃e : Eq K⦄ (P : K → V → Type μ) where
  -- On every entry.
  abbrev pub AllEntries : Dict K V → Type μ
  AllEntries d = All (λ x. P x.0 x.1) d

  pub lookup-AllEntries :
      (k : K) (v : V) (d : Dict K V) → AllEntries d → lookup k d ≡ some v → P k v
  unfolding lookup
  lookup-AllEntries k v [] a h = cc
  lookup-AllEntries k v ((j, w) ∷ d) a h = elim (Bool-cases (j == k)) [
    | inl t ↦ let q : w ≡ v = cc (rw t at h) in rw (← (e.beq_iff j k).0 t, ← q) a.0
    | inr t ↦ lookup-AllEntries k v d a.1 (rw t at h)
  ]

  pub insert-AllEntries :
      (k : K) (v : V) (d : Dict K V) → AllEntries d → P k v → AllEntries (insert k v d)
  unfolding insert
  insert-AllEntries k v [] a h = (h, tt)
  insert-AllEntries k v ((j, w) ∷ d) a h = elim (Bool-cases (j == k)) [
    | inl t ↦ rw t (rw ((e.beq_iff j k).0 t) h, a.1)
    | inr t ↦ rw t (a.0, insert-AllEntries k v d a.1 h)
  ]

  pub remove-AllEntries : (k : K) (d : Dict K V) → AllEntries d → AllEntries (remove k d)
  unfolding remove
  remove-AllEntries k [] a = tt
  remove-AllEntries k ((j, w) ∷ d) a = elim (Bool-cases (j == k)) [
    | inl t ↦ rw t (remove-AllEntries k d a.1)
    | inr t ↦ rw t (a.0, remove-AllEntries k d a.1)
  ]

module _ {ℓ κ} {K : Type ℓ} {V : Type κ} ⦃e : Eq K⦄ where
  pub lookup-keep :
      (p : K → V → Bool) (k : K) (v : V) (d : Dict K V)
      → lookup k d ≡ some v
      → p k v ≡ true
      → lookup k (keep (λ x. p x.0 x.1) d) ≡ some v
  unfolding lookup
  lookup-keep p k v [] h t = h
  lookup-keep p k v ((j, w) ∷ d) h t = elim (Bool-cases (j == k)) [
    | inl s ↦
        let q : w ≡ v = cc (rw s at h) in
        let t' : p j w ≡ true = rw ((e.beq_iff j k).0 s, q) t in rw t' (rw s (ap some q))
    | inr s ↦
        let rest = lookup-keep p k v d (rw s at h) t in
        elim (Bool-cases (p j w)) [ inl u ↦ rw u (rw s rest) | inr u ↦ rw u rest ]
  ]

  pub remove-no_key : (k : K) (d : Dict K V) → All (λ x. (x.0 == k) ≡ false) (remove k d)
  unfolding remove
  remove-no_key k [] = tt
  remove-no_key k ((j, w) ∷ d) = elim (Bool-cases (j == k)) [
    | inl t ↦ rw t (remove-no_key k d)
    | inr t ↦ rw t (t, remove-no_key k d)
  ]
