-- ===== src/Generation/Examples.antt =====
-- The validation on a concrete answer.
use zglab_rag.Prelude.{
  ℕ, ◌≡◌, refl, true, false, none, some, List, [], ◌∷◌, Text, codes, map, text_eq,
}
use zglab_rag.Generation.Contracts.{public, personal, EvidenceItem, GeneratedClaim, GeneratedAnswer}
use zglab_rag.Generation.Citation.{
  matches_evidence_id, is_ok, dedupe, validate_generated_answer, resolve_sources,
}
use zglab_rag.Generation.Citation.Grounded.{validate-well_cited, well_cited}
use zglab_rag.Generation.Citation.Sources.{resolve_sources-validate}

abbrev item : Text → EvidenceItem ℕ
item id = record {
  evidence_id = id;
  chunk_id = some (codes "chunk");
  document_id = none;
  source_id = none;
  source_path = codes "notes.md";
  title = codes "Notes";
  section_path = [];
  content = codes "text";
  revision = none;
  visibility = public;
  rank = 1;
  score = 7;
  origin = personal;
  url = none;
  domain = none;
}

abbrev evidence : List (EvidenceItem ℕ)
evidence = item (codes "E1") ∷ item (codes "E2") ∷ []

abbrev claim : List Text → GeneratedClaim
claim citations = record { text = codes "a claim"; citations = citations }

abbrev answer : List GeneratedClaim → GeneratedAnswer
answer claims = record {
  answer = codes "an answer";
  claims = claims;
  citations = [];
  insufficient_evidence = false;
}

abbrev cited : GeneratedAnswer
cited = answer (claim (codes "E2" ∷ codes "E1" ∷ []) ∷ claim (codes "E2" ∷ []) ∷ [])

-- A line feed after the digits is let through by the expression.
line_feed_matches : matches_evidence_id (codes "E1\n") ≡ true
unfolding matches_evidence_id
line_feed_matches = refl

foreign_refused :
    is_ok (validate_generated_answer (answer (claim (codes "E3" ∷ []) ∷ [])) evidence) ≡ false
unfolding is_ok validate_generated_answer matches_evidence_id dedupe
foreign_refused = refl

validate-well_cited_example :
    is_ok (validate_generated_answer cited evidence) ≡ well_cited cited evidence
validate-well_cited_example = validate-well_cited cited evidence

resolve_sources-validate_example :
    map
      (λ s. s.evidence_id)
      (resolve_sources (validate_generated_answer cited evidence).cited_evidence_ids evidence)
    ≡ (validate_generated_answer cited evidence).cited_evidence_ids
resolve_sources-validate_example = resolve_sources-validate cited evidence
