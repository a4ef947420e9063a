-- ===== src/Generation/Citation/Sources.antt =====
-- The sources of the ids that a validation returns.
use zglab_rag.Prelude.{
  ℕ, ◌+◌, ◌≡◌, refl, sym, ap, Bool, true, some, List, [], ◌∷◌, ◌++◌, map, Text, ◌==◌, text_eq, all,
  contains, arith, and_true, Bool-cases, Option-cases, inl, inr, text_beq_iff,
}
use zglab_rag.Generation.Contracts.{EvidenceItem, GeneratedClaim, GeneratedAnswer}
use zglab_rag.Generation.Citation.{
  is_empty, dedupe_from, dedupe, Found, require_valid, check_citation, check_citations, check_claim,
  check_claims, validate_generated_answer, by_id, resolve_sources,
}

all-append :
    (p : Text → Bool) (xs ys : List Text)
    → all p xs ≡ true
    → all p ys ≡ true
    → all p (xs ++ ys) ≡ true
all-append p [] ys h k = k
all-append p (x ∷ xs) ys h k =
    let (one, rest) = and_true (p x) (all p xs) h in rw (one, all-append p xs ys rest k) refl

all-dedupe_from :
    (p : Text → Bool) (seen cs : List Text)
    → all p seen ≡ true
    → all p cs ≡ true
    → all p (dedupe_from seen cs) ≡ true
all-dedupe_from p seen [] h k = h
all-dedupe_from p seen (c ∷ cs) h k =
    let (one, rest) = and_true (p c) (all p cs) k in
    elim (Bool-cases (contains c seen)) [
      | inl e ↦ rw e (all-dedupe_from p seen cs h rest)
      | inr e ↦
          rw e (
            all-dedupe_from p (seen ++ c ∷ []) cs (all-append p seen (c ∷ []) h (rw one refl)) rest)
    ]

module _ (allowed : List Text) where
  abbrev is_in : Text → Bool
  is_in c = contains c allowed

  citation_in : (i : ℕ) (c : Text) → all is_in (check_citation allowed i c).valid ≡ true
  citation_in i c = ground arith

  citations_in : (i : ℕ) (cs : List Text) → all is_in (check_citations allowed i cs).valid ≡ true
  citations_in i [] = refl
  citations_in i (c ∷ cs) =
      all-append is_in (check_citation allowed i c).valid _ (citation_in i c) (citations_in i cs)

  require_in :
      (i : ℕ) (f : Found) → all is_in f.valid ≡ true → all is_in (require_valid i f).valid ≡ true
  require_in i f h = elim (Bool-cases (is_empty f.valid)) [
    | inl e ↦ rw e (all-append is_in f.valid [] h refl)
    | inr e ↦ rw e h
  ]

  claim_in : (i : ℕ) (claim : GeneratedClaim) → all is_in (check_claim allowed i claim).valid ≡ true
  claim_in i claim = elim (Bool-cases (is_empty claim.citations)) [
    | inl e ↦ rw e refl
    | inr e ↦
        rw e (
          require_in i (check_citations allowed i claim.citations) (citations_in i claim.citations))
  ]

  claims_in :
      (i : ℕ) (claims : List GeneratedClaim)
      → all is_in (check_claims allowed i claims).valid ≡ true
  claims_in i [] = refl
  claims_in i (claim ∷ rest) =
      all-append is_in (check_claim allowed i claim).valid _ (claim_in i claim)
        (claims_in (i + 1) rest)

module _ {S : Type 0} where
  by_id_found :
      (c : Text) (evidence : List (EvidenceItem S))
      → contains c (map (λ x. x.evidence_id) evidence) ≡ true
      → (x : EvidenceItem S) × (by_id c evidence ≡ some x)
  by_id_found c [] h = cc
  by_id_found c (x ∷ xs) h = elim (Bool-cases (contains c (map (λ y. y.evidence_id) xs))) [
    | inl later ↦ let (y, e) = by_id_found c xs later in (y, rw e refl)
    | inr absent ↦
        let here : (c == x.evidence_id) ≡ true = ground (arith, h, absent) in
        let same : (x.evidence_id == c) ≡ true =
          (text_beq_iff x.evidence_id c).1 (sym ((text_beq_iff c x.evidence_id).0 here)) in
        elim (Option-cases (by_id c xs)) [
          | inl e ↦ (x, rw (e, same) refl)
          | inr (y, e) ↦ (y, rw e refl)
        ]
  ]

  resolve_found :
      (ids : List Text) (evidence : List (EvidenceItem S))
      → all (is_in (map (λ x. x.evidence_id) evidence)) ids ≡ true
      → map (λ s. s.evidence_id) (resolve_sources ids evidence) ≡ ids
  unfolding resolve_sources
  resolve_found [] evidence h = refl
  resolve_found (c ∷ cs) evidence h =
      let (one, rest) =
        and_true (is_in _ c) (all (is_in (map (λ x. x.evidence_id) evidence)) cs) h in
      let (x, e) = by_id_found c evidence one in
      rw e (ap (λ t. c ∷ t) (resolve_found cs evidence rest))

  -- Each id that a validation returns resolves to a source, in the order of the ids.
  pub resolve_sources-validate :
      (answer : GeneratedAnswer) (evidence : List (EvidenceItem S))
      → map
          (λ s. s.evidence_id)
          (resolve_sources (validate_generated_answer answer evidence).cited_evidence_ids evidence)
        ≡ (validate_generated_answer answer evidence).cited_evidence_ids
  unfolding validate_generated_answer resolve_sources dedupe
  resolve_sources-validate answer evidence = elim (Bool-cases answer.insufficient_evidence) [
    | inl e ↦ rw e refl
    | inr e ↦ rw e (
        resolve_found _ evidence (
          all-dedupe_from (is_in (map (λ x. x.evidence_id) evidence)) []
            (check_claims (map (λ x. x.evidence_id) evidence) 1 answer.claims).valid refl
            (claims_in (map (λ x. x.evidence_id) evidence) 1 answer.claims)))
  ]
