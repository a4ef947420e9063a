-- ===== src/Prelude/Rows.antt =====
-- Tables of a database, as lists of rows in the order of insertion.
use Prim.Native.Nat.{ℕ, ◌+◌, max}
use mathlib.Core.Path.{◌≡◌, refl}
use mathlib.Core.Bool.{Bool, true}
use mathlib.Core.Option.{Option, none, some}
use mathlib.Core.List.{List, [], ◌∷◌, ◌++◌}
use native.Mathlib.Omega.{arith}
use mathlib.Core.Logic.{inl, inr}
use zglab_rag.Prelude.Tests.{if◌then◌else◌, Bool-cases}

module _ {ℓ} {A : Type ℓ} where
  -- `SELECT * FROM rows WHERE p`, the first row
  unfoldable pub find : (A → Bool) → List A → Option A
  find p [] = none
  find p (x ∷ xs) = if p x then some x else find p xs

  abbrev pub change : (A → Bool) → (A → A) → A → A
  change q f x = if q x then f x else x

  -- `UPDATE rows SET f WHERE q`
  unfoldable pub update : (A → Bool) → (A → A) → List A → List A
  update q f [] = []
  update q f (x ∷ xs) = change q f x ∷ update q f xs

  -- The `rowcount` of that update.
  unfoldable pub row_count : (A → Bool) → List A → ℕ
  row_count q [] = 0
  row_count q (x ∷ xs) = (if q x then 1 else 0) + row_count q xs

  -- `DELETE FROM rows WHERE q`
  unfoldable pub delete : (A → Bool) → List A → List A
  delete q [] = []
  delete q (x ∷ xs) = let rest = delete q xs in if q x then rest else x ∷ rest

  -- The id of the next row of a table with an `INTEGER PRIMARY KEY`: one more than the largest.
  unfoldable pub next_id : (A → ℕ) → List A → ℕ
  next_id id [] = 1
  next_id id (x ∷ xs) = max (id x + 1) (next_id id xs)

  abbrev pub map_option {κ} : {B : Type κ} → (A → B) → Option A → Option B
  map_option f none = none
  map_option f (some a) = some (f a)

module _ {ℓ} {A : Type ℓ} (p q : A → Bool) (f : A → A) where
  -- An update that keeps the key changes the row that is found.
  pub find-update :
      (xs : List A)
      → ((x : A) → p (f x) ≡ p x)
      → find p (update q f xs) ≡ map_option (change q f) (find p xs)
  unfolding find update
  find-update [] h = refl
  find-update (x ∷ xs) h = ground (arith, h x, find-update xs h)

module _ {ℓ} {A : Type ℓ} (p : A → Bool) where
  pub find-some : (xs : List A) (x : A) → find p xs ≡ some x → p x ≡ true
  unfolding find
  find-some [] x h = ground arith
  find-some (y ∷ xs) x h = elim (Bool-cases (p y)) [
    | inl t ↦ ground arith
    | inr t ↦ find-some xs x (rw t at h)
  ]

  -- A new row is found where no older one is.
  pub find-append :
      (xs : List A) (x : A)
      → find p (xs ++ x ∷ [])
        ≡ (elim (find p xs) [ none ↦ if p x then some x else none | some y ↦ some y ])
  unfolding find
  find-append [] x = ground arith
  find-append (y ∷ xs) x = ground (arith, find-append xs x)
