-- ===== src/Generation/Citation/Grounded.antt =====
-- What the validation of an answer accepts.
use zglab_rag.Prelude.{
  ℕ, ◌+◌, ◌≡◌, refl, sym, ◌∙◌, Bool, true, false, ◌&&◌, ◌||◌, not, List, [], ◌∷◌, ◌++◌, map, Text,
  text_eq, if◌then◌else◌, all, contains, arith, and_true, Bool-cases, inl, inr,
}
use zglab_rag.Generation.Contracts.{EvidenceItem, GeneratedClaim, GeneratedAnswer}
use zglab_rag.Generation.Citation.{
  matches_evidence_id, Violation, no_claim, no_grounding, is_empty, is_ok, dedupe_from, dedupe,
  Found, check_citation, check_citations, require_valid, check_claim, check_claims, illegal_formats,
  same_set, when, check_answer_citations, validate_generated_answer,
}

module _ (allowed : List Text) where
  -- A citation of a piece of this request's evidence.
  abbrev pub is_grounded : Text → Bool
  is_grounded c = matches_evidence_id c && contains c allowed

  -- A claim with a citation, all of whose citations are of the evidence.
  abbrev pub is_cited : GeneratedClaim → Bool
  is_cited claim = not (is_empty claim.citations) && all is_grounded claim.citations

abbrev pub citations_of : List GeneratedClaim → List Text
citations_of [] = []
citations_of (claim ∷ rest) = claim.citations ++ citations_of rest

-- An answer that says no more than its evidence does: one that declines has neither claims nor
-- citations; any other has a claim, each claim is cited, and the citations of the whole, if there
-- are any, are those of the claims.
abbrev pub well_cited : {S : Type 0} → GeneratedAnswer → List (EvidenceItem S) → Bool
well_cited answer evidence =
    if answer.insufficient_evidence
    then is_empty answer.claims && is_empty answer.citations
    else not (is_empty answer.claims)
      && (all (is_cited (map (λ x. x.evidence_id) evidence)) answer.claims
          && (is_empty answer.citations
              || (all matches_evidence_id answer.citations
                  && same_set answer.citations (dedupe (citations_of answer.claims)))))

is_empty-append : {A : Type 0} (xs ys : List A) → is_empty (xs ++ ys) ≡ (is_empty xs && is_empty ys)
is_empty-append [] ys = refl
is_empty-append (x ∷ xs) ys = refl

is_empty-when : (b : Bool) (v : Violation) → is_empty (when b v) ≡ not b
is_empty-when true v = refl
is_empty-when false v = refl

module _ (allowed : List Text) where
  citation_problems :
      (i : ℕ) (c : Text) → is_empty (check_citation allowed i c).problems ≡ is_grounded allowed c
  citation_problems i c = ground arith

  citation_valid :
      (i : ℕ) (c : Text)
      → is_grounded allowed c ≡ true
      → (check_citation allowed i c).valid ≡ c ∷ []
  citation_valid i c h = ground arith

  citations_problems :
      (i : ℕ) (cs : List Text)
      → is_empty (check_citations allowed i cs).problems ≡ all (is_grounded allowed) cs
  citations_problems i [] = refl
  citations_problems i (c ∷ cs) =
      is_empty-append (check_citation allowed i c).problems (check_citations allowed i cs).problems
      ∙ rw (citation_problems i c, citations_problems i cs) refl

  citations_valid :
      (i : ℕ) (cs : List Text)
      → all (is_grounded allowed) cs ≡ true
      → (check_citations allowed i cs).valid ≡ cs
  citations_valid i [] h = refl
  citations_valid i (c ∷ cs) h =
      let (one, rest) = and_true (is_grounded allowed c) (all (is_grounded allowed) cs) h in
      rw (citation_valid i c one, citations_valid i cs rest) refl

  require_valid_problems :
      (i : ℕ) (f : Found)
      → is_empty (require_valid i f).problems ≡ (is_empty f.problems && not (is_empty f.valid))
  require_valid_problems i f = elim (Bool-cases (is_empty f.valid)) [
    | inl e ↦ rw e (is_empty-append f.problems _)
    | inr e ↦ rw e (ground arith)
  ]

  list_problems :
      (i : ℕ) (c : Text) (cs : List Text)
      → is_empty (require_valid i (check_citations allowed i (c ∷ cs))).problems
        ≡ all (is_grounded allowed) (c ∷ cs)
  list_problems i c cs =
      require_valid_problems i (check_citations allowed i (c ∷ cs))
      ∙ rw (citations_problems i (c ∷ cs)) (elim (Bool-cases (all (is_grounded allowed) (c ∷ cs))) [
        | inl e ↦ rw (citations_valid i (c ∷ cs) e, e) refl
        | inr e ↦ rw e refl
      ])

  claim_problems :
      (i : ℕ) (t : Text) (cs : List Text)
      → is_empty (check_claim allowed i (record { text = t; citations = cs })).problems
        ≡ is_cited allowed (record { text = t; citations = cs })
  claim_problems i t [] = refl
  claim_problems i t (c ∷ cs) = list_problems i c cs

  claim_valid :
      (i : ℕ) (t : Text) (cs : List Text)
      → is_cited allowed (record { text = t; citations = cs }) ≡ true
      → (check_claim allowed i (record { text = t; citations = cs })).valid ≡ cs
  claim_valid i t [] h = refl
  claim_valid i t (c ∷ cs) h = rw (citations_valid i (c ∷ cs) h) refl

  pub claims_problems :
      (i : ℕ) (claims : List GeneratedClaim)
      → is_empty (check_claims allowed i claims).problems ≡ all (is_cited allowed) claims
  claims_problems i [] = refl
  claims_problems i (claim ∷ rest) =
      is_empty-append (check_claim allowed i claim).problems
        (check_claims allowed (i + 1) rest).problems
      ∙ rw (claim_problems i claim.text claim.citations, claims_problems (i + 1) rest) refl

  pub claims_valid :
      (i : ℕ) (claims : List GeneratedClaim)
      → all (is_cited allowed) claims ≡ true
      → (check_claims allowed i claims).valid ≡ citations_of claims
  claims_valid i [] h = refl
  claims_valid i (claim ∷ rest) h =
      let (one, others) = and_true (is_cited allowed claim) (all (is_cited allowed) rest) h in
      rw (claim_valid i claim.text claim.citations one, claims_valid (i + 1) rest others) refl

is_empty-contains : (c : Text) (seen : List Text) → contains c seen ≡ true → is_empty seen ≡ false
is_empty-contains c [] h = sym h
is_empty-contains c (x ∷ xs) h = refl

is_empty-dedupe_from :
    (seen cs : List Text) → is_empty (dedupe_from seen cs) ≡ (is_empty seen && is_empty cs)
is_empty-dedupe_from seen [] = ground arith
is_empty-dedupe_from seen (c ∷ cs) = elim (Bool-cases (contains c seen)) [
  | inl e ↦ rw e (is_empty-dedupe_from seen cs ∙ rw (is_empty-contains c seen e) refl)
  | inr e ↦
      rw e (
        is_empty-dedupe_from (seen ++ c ∷ []) cs
        ∙ rw (is_empty-append seen (c ∷ [])) (ground arith))
]

is_empty-illegal_formats :
    (cs : List Text) → is_empty (illegal_formats cs) ≡ all matches_evidence_id cs
is_empty-illegal_formats [] = refl
is_empty-illegal_formats (c ∷ cs) = ground (arith, is_empty-illegal_formats cs)

answer_citations_problems :
    (cs union : List Text)
    → is_empty (check_answer_citations cs union)
      ≡ (is_empty cs || (all matches_evidence_id cs && same_set cs union))
answer_citations_problems [] union = refl
answer_citations_problems (c ∷ cs) union =
    is_empty-append (illegal_formats (c ∷ cs)) _
    ∙ rw (is_empty-illegal_formats (c ∷ cs), is_empty-when) (ground arith)

is_empty-citations_of :
    (allowed : List Text) (claims : List GeneratedClaim)
    → all (is_cited allowed) claims ≡ true
    → is_empty (citations_of claims) ≡ is_empty claims
is_empty-citations_of allowed [] h = refl
is_empty-citations_of allowed (claim ∷ rest) h =
    let (one, others) = and_true (is_cited allowed claim) (all (is_cited allowed) rest) h in
    let (some_, grounded) = and_true (not (is_empty claim.citations)) _ one in
    is_empty-append claim.citations (citations_of rest) ∙ ground (arith, some_)

-- The problems of an answer that does not decline.
answered_problems :
    (allowed : List Text) (claims : List GeneratedClaim) (citations : List Text)
    → is_empty (
        when (is_empty claims) no_claim
        ++ ((check_claims allowed 1 claims).problems
            ++ (when
                  (not (is_empty claims) && is_empty (dedupe (check_claims allowed 1 claims).valid))
                  no_grounding
                ++ check_answer_citations citations
                    (dedupe (check_claims allowed 1 claims).valid))))
      ≡ (not (is_empty claims)
          && (all (is_cited allowed) claims
              && (is_empty citations
                  || (all matches_evidence_id citations
                      && same_set citations (dedupe (citations_of claims))))))
unfolding dedupe
answered_problems allowed claims citations =
    rw (is_empty-append, is_empty-append, is_empty-append, is_empty-when, is_empty-when)
      (rw (claims_problems allowed 1 claims, answer_citations_problems, is_empty-dedupe_from)
        (elim (Bool-cases (all (is_cited allowed) claims)) [
          | inl e ↦
              rw (claims_valid allowed 1 claims e, e, is_empty-citations_of allowed claims e)
                (ground arith)
          | inr e ↦ rw e (ground arith)
        ]))

-- The validation finds no violation exactly in the answers that are well cited.
pub validate-well_cited :
    {S : Type 0} (answer : GeneratedAnswer) (evidence : List (EvidenceItem S))
    → is_ok (validate_generated_answer answer evidence) ≡ well_cited answer evidence
unfolding is_ok validate_generated_answer dedupe
validate-well_cited answer evidence = elim (Bool-cases answer.insufficient_evidence) [
  | inl e ↦ rw e (is_empty-append (when (not (is_empty answer.claims)) _) _ ∙ ground arith)
  | inr e ↦
      rw e (answered_problems (map (λ x. x.evidence_id) evidence) answer.claims answer.citations)
]
