-- ===== src/Generation/Context/Public.antt =====
-- Only public rows reach a context.
use zglab_rag.Prelude.{
  ℕ, ◌+◌, ◌≡◌, refl, Bool, true, Option, List, [], ◌∷◌, Text, all, and_true, take, Bool-cases, inl,
  inr,
}
use zglab_rag.Generation.Contracts.{EvidenceItem}
use zglab_rag.Generation.Context.{
  ContextBudget, RetrievalResult, is_public, evidence_from, sorted, build_evidence_items,
  select_evidence, build,
}
use zglab_rag.Generation.Context.Budget.{
  Sublist, done, keep, skip, Sublist-take, select_from-append,
}

module _ {S : Type 0} where
  abbrev pub is_public_item : EvidenceItem S → Bool
  is_public_item x = is_public x.visibility

  evidence_from_public :
      (str_int : ℕ → Text) (n : ℕ) (rs : List (RetrievalResult S))
      → all is_public_item (evidence_from str_int n rs) ≡ true
  evidence_from_public str_int n [] = refl
  evidence_from_public str_int n (r ∷ rs) = elim (Bool-cases (is_public r.visibility)) [
    | inl e ↦ rw e (rw e (evidence_from_public str_int (n + 1) rs))
    | inr e ↦ rw e (evidence_from_public str_int n rs)
  ]

  all-Sublist :
      (p : EvidenceItem S → Bool) {xs ys : List (EvidenceItem S)}
      → Sublist xs ys
      → all p ys ≡ true
      → all p xs ≡ true
  all-Sublist p done h = refl
  all-Sublist p (keep x {xs} {ys} s) h =
      let (one, rest) = and_true (p x) (all p ys) h in rw (one, all-Sublist p s rest) refl
  all-Sublist p (skip x {xs} {ys} s) h = all-Sublist p s (and_true (p x) (all p ys) h).1

  -- The evidence that is built of any retrieval results is public, whatever their visibility.
  pub build_public :
      (str_int : ℕ → Text) (budget : ContextBudget) (system_prompt question : Text)
      (results : List (RetrievalResult S)) (conversation : Option Text)
      → all is_public_item
          (build str_int budget system_prompt question results conversation).evidence
        ≡ true
  unfolding build select_evidence build_evidence_items
  build_public str_int budget system_prompt question results conversation =
      let items = evidence_from str_int 0 (sorted results) in
      let (more, e, s) =
        select_from-append budget.max_context_chars [] 0 (take budget.max_evidence_items items) in
      rw e (
        all-Sublist is_public_item (Sublist-take budget.max_evidence_items items s)
          (evidence_from_public str_int 0 (sorted results)))
