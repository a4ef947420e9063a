-- ===== src/Generation/Citation.antt =====
-- src/zglab_rag/generation/citation.py. A violation is a constructor where the code has a message.
pub mod Grounded
pub mod Sources
use zglab_rag.Prelude.{
  ℕ, ◌+◌, Bool, true, false, ◌&&◌, ◌||◌, not, Option, none, some, List, [], ◌∷◌, ◌++◌, map, Text,
  ◌==◌, text_eq, leb, nat_beq, if◌then◌else◌, all, contains,
}
use zglab_rag.Generation.Contracts.{EvidenceItem, GeneratedClaim, GeneratedAnswer, AnswerSource}

-- `[0-9]`
abbrev pub is_digit : ℕ → Bool
is_digit c = leb b'0' c && leb c b'9'

-- `[0-9]*$`: the end may stand before a last line feed.
abbrev pub digits_to_end : Text → Bool
digits_to_end [] = true
digits_to_end (c ∷ []) = is_digit c || nat_beq c b'\n'
digits_to_end (c ∷ d ∷ s) = is_digit c && digits_to_end (d ∷ s)

-- `^E[1-9][0-9]*$`, as `re.match` reads it
unfoldable pub matches_evidence_id : Text → Bool
matches_evidence_id [] = false
matches_evidence_id (e ∷ []) = false
matches_evidence_id (e ∷ c ∷ s) = nat_beq e b'E' && ((leb b'1' c && leb c b'9') && digits_to_end s)

pub data Violation : Type 0 where
  insufficient_with_claims insufficient_with_citations no_claim no_grounding : Violation
  claim_without_citation claim_without_valid_citation : ℕ → Violation
  illegal_format not_in_context : Text → ℕ → Violation
  illegal_answer_format : Text → Violation
  not_the_union : List Text → List Text → Violation

pub record CitationValidation : Type 0 where
  pub violations : List Violation
  pub cited_evidence_ids : List Text

abbrev pub is_empty {ℓ} : {A : Type ℓ} → List A → Bool
is_empty [] = true
is_empty (x ∷ xs) = false

unfoldable pub is_ok : CitationValidation → Bool
is_ok v = is_empty v.violations

-- The loop of `_dedupe`, from what is seen.
abbrev pub dedupe_from : List Text → List Text → List Text
dedupe_from seen [] = seen
dedupe_from seen (c ∷ cs) = dedupe_from (if contains c seen then seen else seen ++ c ∷ []) cs

unfoldable pub dedupe : List Text → List Text
dedupe ids = dedupe_from [] ids

-- A loop's violations, and the citations that it has found valid.
pub record Found : Type 0 where
  pub problems : List Violation
  pub valid : List Text

abbrev pub both : Found → Found → Found
both f g = record { problems = f.problems ++ g.problems; valid = f.valid ++ g.valid }

abbrev pub report : Violation → Found
report v = record { problems = v ∷ []; valid = [] }

-- `if valid_for_claim == 0: …`
abbrev pub require_valid : ℕ → Found → Found
require_valid index f =
    if is_empty f.valid then both f (report (claim_without_valid_citation index)) else f

module _ (allowed : List Text) where
  abbrev pub check_citation : ℕ → Text → Found
  check_citation index c =
      if not (matches_evidence_id c)
      then report (illegal_format c index)
      else if not (contains c allowed)
      then report (not_in_context c index)
      else record { problems = []; valid = c ∷ [] }

  abbrev pub check_citations : ℕ → List Text → Found
  check_citations index [] = record { problems = []; valid = [] }
  check_citations index (c ∷ cs) = both (check_citation index c) (check_citations index cs)

  abbrev pub check_claim : ℕ → GeneratedClaim → Found
  check_claim index claim =
      if is_empty claim.citations
      then report (claim_without_citation index)
      else require_valid index (check_citations index claim.citations)

  abbrev pub check_claims : ℕ → List GeneratedClaim → Found
  check_claims index [] = record { problems = []; valid = [] }
  check_claims index (claim ∷ rest) = both (check_claim index claim) (check_claims (index + 1) rest)

abbrev pub illegal_formats : List Text → List Violation
illegal_formats [] = []
illegal_formats (c ∷ cs) =
    let rest = illegal_formats cs in
    if not (matches_evidence_id c) then illegal_answer_format c ∷ rest else rest

abbrev pub subset : List Text → List Text → Bool
subset xs ys = all (λ x. contains x ys) xs

-- `set(xs) == set(ys)`
abbrev pub same_set : List Text → List Text → Bool
same_set xs ys = subset xs ys && subset ys xs

abbrev pub when : Bool → Violation → List Violation
when b v = if b then v ∷ [] else []

-- The checks of the top-level citations.
abbrev pub check_answer_citations : List Text → List Text → List Violation
check_answer_citations citations union =
    if is_empty citations
    then []
    else illegal_formats citations
      ++ when (not (same_set citations union)) (not_the_union union citations)

unfoldable pub validate_generated_answer :
    {S : Type 0} → GeneratedAnswer → List (EvidenceItem S) → CitationValidation
validate_generated_answer answer evidence =
    let found = check_claims (map (λ x. x.evidence_id) evidence) 1 answer.claims in
    let union = dedupe found.valid in
    if answer.insufficient_evidence
    then record {
      violations =
          when (not (is_empty answer.claims)) insufficient_with_claims
          ++ when (not (is_empty answer.citations)) insufficient_with_citations;
      cited_evidence_ids = [];
    }
    else record {
      violations =
          when (is_empty answer.claims) no_claim
          ++ (found.problems
              ++ (when (not (is_empty answer.claims) && is_empty union) no_grounding
                  ++ check_answer_citations answer.citations union));
      cited_evidence_ids = union;
    }

module _ {S : Type 0} where
  abbrev pub or_item : Option (EvidenceItem S) → Option (EvidenceItem S) → Option (EvidenceItem S)
  or_item (some x) o = some x
  or_item none o = o

  -- `by_id.get`: of items with the same id, the dict has the last.
  abbrev pub by_id : Text → List (EvidenceItem S) → Option (EvidenceItem S)
  by_id id [] = none
  by_id id (x ∷ xs) = or_item (by_id id xs) (if x.evidence_id == id then some x else none)

  abbrev pub answer_source : Text → EvidenceItem S → AnswerSource S
  answer_source id item = record {
    evidence_id = id;
    source_id = item.source_id;
    document_id = item.document_id;
    chunk_id = item.chunk_id;
    title = item.title;
    source_path = item.source_path;
    section_path = item.section_path;
    source_url = none;
    score = some item.score;
    origin = item.origin;
    url = item.url;
    domain = item.domain;
  }

  abbrev pub add_source :
      Text → Option (EvidenceItem S) → List (AnswerSource S) → List (AnswerSource S)
  add_source id none rest = rest
  add_source id (some item) rest = answer_source id item ∷ rest

  unfoldable pub resolve_sources : List Text → List (EvidenceItem S) → List (AnswerSource S)
  resolve_sources [] evidence = []
  resolve_sources (id ∷ ids) evidence =
      add_source id (by_id id evidence) (resolve_sources ids evidence)
