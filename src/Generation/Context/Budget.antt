-- ===== src/Generation/Context/Budget.antt =====
-- What the budget lets into a context.
use zglab_rag.Prelude.{
  ℕ, ◌+◌, ◌≤◌, ◌≡◌, refl, sym, ap, ◌∙◌, false, ◌&&◌, not, Option, none, some, List, [], ◌∷◌, ◌++◌,
  ◌-◌, zero, suc, append_nil, append_assoc, take, length, length-take-le, ltb, arith, Bool-cases,
  ◌⊎◌, inl, inr,
}
use zglab_rag.Generation.Contracts.{EvidenceItem}
use zglab_rag.Generation.Citation.{is_empty}
use zglab_rag.Generation.Context.{
  ContextBudget, render_evidence_block, select_from, select_evidence,
}

module _ {S : Type 0} where
  -- The characters of the rendered items.
  abbrev pub total_size : List (EvidenceItem S) → ℕ
  total_size [] = 0
  total_size (item ∷ items) = length (render_evidence_block item) + total_size items

  abbrev pub first_of : List (EvidenceItem S) → Option (EvidenceItem S)
  first_of [] = none
  first_of (x ∷ xs) = some x

  -- Some of the items, in their order.
  pub data Sublist : List (EvidenceItem S) → List (EvidenceItem S) → Type 0 where
    done : Sublist [] []
    keep :
        (x : EvidenceItem S) {xs ys : List (EvidenceItem S)}
        → Sublist xs ys
        → Sublist (x ∷ xs) (x ∷ ys)
    skip :
        (x : EvidenceItem S) {xs ys : List (EvidenceItem S)} → Sublist xs ys → Sublist xs (x ∷ ys)

  -- A selection of a list: whole items in their order, within the two limits, unless it is the first
  -- item alone; and the first item is always there.
  pub record Selected (budget : ContextBudget) (items selected : List (EvidenceItem S))
      : Type 0 where
    pub whole : Sublist selected items
    pub few : length selected ≤ budget.max_evidence_items
    pub fits : (total_size selected ≤ budget.max_context_chars) ⊎ (length selected ≤ 1)
    pub first : first_of selected ≡ first_of items

  total_size-append :
      (xs ys : List (EvidenceItem S)) → total_size (xs ++ ys) ≡ total_size xs + total_size ys
  total_size-append [] ys = omega arith
  total_size-append (x ∷ xs) ys = omega (arith, total_size-append xs ys)

  Within : ℕ → List (EvidenceItem S) → Type 0
  Within limit selected = (total_size selected ≤ limit) ⊎ (length selected ≤ 1)

  Within-snoc :
      (limit : ℕ) (selected : List (EvidenceItem S)) (x : EvidenceItem S)
      → (not (is_empty selected)
          && ltb limit (total_size selected + length (render_evidence_block x)))
        ≡ false
      → Within limit (selected ++ x ∷ [])
  unfolding Within
  Within-snoc limit [] x h = inr (omega arith)
  Within-snoc limit (y ∷ ys) x h = inl (ground (arith, total_size-append (y ∷ ys) (x ∷ []), h))

  select_from-Within :
      (limit : ℕ) (selected : List (EvidenceItem S)) (used : ℕ) (items : List (EvidenceItem S))
      → total_size selected ≡ used
      → Within limit selected
      → Within limit (select_from limit selected used items)
  unfolding select_from
  select_from-Within limit selected used [] e h = h
  select_from-Within limit selected used (x ∷ items) e h =
      elim (Bool-cases
        (not (is_empty selected) && ltb limit (used + length (render_evidence_block x)))) [
          | inl b ↦ rw b (select_from-Within limit selected used items e h)
          | inr b ↦ rw b (
              select_from-Within limit (selected ++ x ∷ [])
                (used + length (render_evidence_block x)) items
                (omega (arith, total_size-append selected (x ∷ []), e))
                (Within-snoc limit selected x (rw e b)))
        ]

  pub select_from-append :
      (limit : ℕ) (selected : List (EvidenceItem S)) (used : ℕ) (items : List (EvidenceItem S))
      → (more : List (EvidenceItem S)) × (select_from limit selected used items ≡ selected ++ more)
        × Sublist more items
  unfolding select_from
  select_from-append limit selected used [] = ([], sym (append_nil selected), done)
  select_from-append limit selected used (x ∷ items) =
      elim (Bool-cases
        (not (is_empty selected) && ltb limit (used + length (render_evidence_block x)))) [
          | inl b ↦
              let (more, e, s) = select_from-append limit selected used items in
              (more, rw b e, skip x s)
          | inr b ↦
              let (more, e, s) =
                select_from-append limit (selected ++ x ∷ [])
                  (used + length (render_evidence_block x)) items in
              (x ∷ more, rw b (e ∙ append_assoc selected (x ∷ []) more), keep x s)
        ]

  length-Sublist : {xs ys : List (EvidenceItem S)} → Sublist xs ys → length xs ≤ length ys
  length-Sublist done = omega arith
  length-Sublist (keep x s) = omega (arith, length-Sublist s)
  length-Sublist (skip x s) = omega (arith, length-Sublist s)

  Sublist-none : (xs : List (EvidenceItem S)) → Sublist [] xs
  Sublist-none [] = done
  Sublist-none (x ∷ xs) = skip x (Sublist-none xs)

  pub Sublist-take :
      (n : ℕ) (items : List (EvidenceItem S)) {xs : List (EvidenceItem S)}
      → Sublist xs (take n items)
      → Sublist xs items
  Sublist-take zero items done = Sublist-none items
  Sublist-take (suc n) [] done = done
  Sublist-take (suc n) (x ∷ items) (keep _ s) = keep x (Sublist-take n items s)
  Sublist-take (suc n) (x ∷ items) (skip _ s) = skip x (Sublist-take n items s)

  first_kept :
      (n limit : ℕ) (items : List (EvidenceItem S))
      → first_of (select_from limit [] 0 (take (suc n) items)) ≡ first_of items
  unfolding select_from
  first_kept n limit [] = refl
  first_kept n limit (x ∷ items) =
      let (more, e, s) =
        select_from-append limit (x ∷ []) (0 + length (render_evidence_block x)) (take n items) in
      ap first_of e

  -- The budget (which asks for at least one item): the selection is whole items in their order, with
  -- the first of them always there; no more than `max_evidence_items`, and no more characters than
  -- `max_context_chars` unless it is one item alone.
  pub select_evidence-Selected :
      (items : List (EvidenceItem S)) (budget : ContextBudget)
      → 1 ≤ budget.max_evidence_items
      → Selected budget items (select_evidence items budget)
  unfolding select_evidence Within
  select_evidence-Selected items budget h =
      let (more, e, s) =
        select_from-append budget.max_context_chars [] 0 (take budget.max_evidence_items items) in
      record {
        whole = rw e (Sublist-take budget.max_evidence_items items s);
        few =
            rw e (omega (arith, length-Sublist s, length-take-le budget.max_evidence_items items));
        fits =
            select_from-Within budget.max_context_chars [] 0 (take budget.max_evidence_items items)
              refl (inl (omega arith));
        first =
            let p : budget.max_evidence_items ≡ suc (budget.max_evidence_items - 1) = omega arith in
            ap (λ n. first_of (select_from budget.max_context_chars [] 0 (take n items))) p
            ∙ first_kept (budget.max_evidence_items - 1) budget.max_context_chars items;
      }
