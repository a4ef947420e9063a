-- ===== src/Generation/Service.antt =====
-- src/zglab_rag/generation/service.py: the grounded generation over a context. The provider, and the
-- parsing of its text, are parameters; latencies and token counts are left out.
pub mod Answered
use zglab_rag.Prelude.{
  ℕ, zero, suc, ◌+◌, Bool, true, false, ◌&&◌, ◌||◌, not, Option, none, some, List, [], ◌∷◌, ◌++◌,
  map, Text, codes, all, length as count, if◌then◌else◌,
}
use zglab_rag.Generation.Contracts.{EvidenceItem, GeneratedClaim, GeneratedAnswer, AnswerSource}
use zglab_rag.Generation.Citation.{
  Violation, CitationValidation, is_empty, is_ok, validate_generated_answer, resolve_sources,
}
use zglab_rag.Generation.Context.{
  ContextBudget, RetrievalResult, BuiltContext, is_public, join, build,
}

pub data GenerationStatus : Type 0 where
  answered insufficient_evidence failed : GenerationStatus

pub record GroundedAnswer (S : Type 0) : Type 0 where
  pub answer : Text
  pub claims : List GeneratedClaim
  pub sources : List (AnswerSource S)
  pub insufficient : Bool

-- What was wrong with an output: that it is no structured answer, or its citations.
pub data SemanticError : Type 0 where
  invalid_structured_output : SemanticError
  citation_validation_failure : List Violation → SemanticError

pub data FailureReason : Type 0 where
  empty_evidence empty_retrieval : FailureReason
  provider_failure : Text → FailureReason
  semantic_failure : SemanticError → FailureReason

pub record GenerationRequest : Type 0 where
  pub question : Text
  pub system_prompt : Text
  pub user_prompt : Text
  pub allowed_evidence_ids : List Text
  pub repair_feedback : Option SemanticError

-- What the service reports; `repair_attempts` and `evidence_count` are of the diagnostics.
pub record GenerationResult (S : Type 0) : Type 0 where
  pub status : GenerationStatus
  pub answer : GroundedAnswer S
  pub evidence_count : ℕ
  pub repair_attempts : ℕ
  pub failure_reason : Option FailureReason
  pub raw_answer : Option Text

-- `ProviderFailure`, or the text of a response.
pub data ProviderOutcome : Type 0 where
  fails : Text → ProviderOutcome
  responds : Text → ProviderOutcome

-- The provider, given the number of the call, and `parse_structured_answer`, where `none` is
-- `InvalidStructuredOutput`.
pub record Provider : Type 0 where
  pub generate : ℕ → GenerationRequest → ProviderOutcome
  pub parse : Text → Option GeneratedAnswer

abbrev pub claim_texts : List GeneratedClaim → List Text
claim_texts claims = map (λ c. c.text) claims

unfoldable pub render_claims_answer : List GeneratedClaim → Text
render_claims_answer claims = join (codes "\n") (claim_texts claims)

-- How an attempt ends.
pub data Attempt : Type 0 where
  provider_failed : Text → Attempt
  accepted : GeneratedAnswer → CitationValidation → Attempt
  rejected : SemanticError → Text → Attempt

-- How the attempts end, with the number of the attempt that was accepted or of the calls made.
pub data Outcome : Type 0 where
  stopped : Text → ℕ → Outcome
  generated : GeneratedAnswer → CitationValidation → ℕ → Outcome
  exhausted : SemanticError → Text → ℕ → Outcome

abbrev pub last_outcome : ℕ → Attempt → Outcome
last_outcome n (provider_failed message) = stopped message (n + 1)
last_outcome n (accepted a v) = generated a v n
last_outcome n (rejected e text) = exhausted e text (n + 1)

abbrev pub next_outcome : ℕ → (SemanticError → Outcome) → Attempt → Outcome
next_outcome n next (provider_failed message) = stopped message (n + 1)
next_outcome n next (accepted a v) = generated a v n
next_outcome n next (rejected e text) = next e

module _ {S : Type 0} (p : Provider) (context : BuiltContext S) where
  abbrev pub judged : GeneratedAnswer → CitationValidation → Text → Attempt
  judged a v text =
      if is_ok v then accepted a v else rejected (citation_validation_failure v.violations) text

  abbrev pub parsed : Option GeneratedAnswer → Text → Attempt
  parsed none text = rejected invalid_structured_output text
  parsed (some a) text = judged a (validate_generated_answer a context.evidence) text

  abbrev pub received : ProviderOutcome → Attempt
  received (fails message) = provider_failed message
  received (responds text) = parsed (p.parse text) text

  -- One round of the loop, from the call to the validation.
  unfoldable pub attempt : ℕ → GenerationRequest → Attempt
  attempt n request = received (p.generate n request)

  abbrev pub with_feedback : SemanticError → GenerationRequest → GenerationRequest
  with_feedback e request = record request { repair_feedback = some e }

  -- The loop over the attempts: attempt number `n`, with `left` more after it.
  unfoldable pub attempts : ℕ → ℕ → GenerationRequest → Outcome
  attempts zero n request = last_outcome n (attempt n request)
  attempts (suc left) n request =
      next_outcome n (λ e. attempts left (n + 1) (with_feedback e request)) (attempt n request)

  abbrev pub first_request : Text → GenerationRequest
  first_request question = record {
    question = question;
    system_prompt = context.system_prompt;
    user_prompt = context.user_prompt;
    allowed_evidence_ids = map (λ x. x.evidence_id) context.evidence;
    repair_feedback = none;
  }

  abbrev pub declined : Text → GroundedAnswer S
  declined text = record { answer = text; claims = []; sources = []; insufficient = true }

  abbrev pub grounded : GeneratedAnswer → CitationValidation → GroundedAnswer S
  grounded a v = record {
    answer = render_claims_answer a.claims;
    claims = a.claims;
    sources = resolve_sources v.cited_evidence_ids context.evidence;
    insufficient = false;
  }

  abbrev pub counted : ℕ
  counted = count context.evidence

  abbrev pub accepted_result : Text → GeneratedAnswer → CitationValidation → ℕ → GenerationResult S
  accepted_result insufficient_answer a v n =
      if a.insufficient_evidence
      then record {
        status = insufficient_evidence;
        answer = declined insufficient_answer;
        evidence_count = counted;
        repair_attempts = n;
        failure_reason = none;
        raw_answer = some a.answer;
      }
      else record {
        status = answered;
        answer = grounded a v;
        evidence_count = counted;
        repair_attempts = n;
        failure_reason = none;
        raw_answer = some a.answer;
      }

  abbrev pub result_of : ℕ → Text → Outcome → GenerationResult S
  result_of max_repair insufficient_answer (stopped message n) = record {
    status = failed;
    answer = declined [];
    evidence_count = counted;
    repair_attempts = 0;
    failure_reason = some (provider_failure message);
    raw_answer = none;
  }
  result_of max_repair insufficient_answer (generated a v n) =
      accepted_result insufficient_answer a v n
  result_of max_repair insufficient_answer (exhausted e text n) = record {
    status = insufficient_evidence;
    answer = declined insufficient_answer;
    evidence_count = counted;
    repair_attempts = max_repair;
    failure_reason = some (semantic_failure e);
    raw_answer = some text;
  }

  abbrev pub without_evidence : Text → FailureReason → GenerationResult S
  without_evidence insufficient_answer reason = record {
    status = insufficient_evidence;
    answer = declined insufficient_answer;
    evidence_count = 0;
    repair_attempts = 0;
    failure_reason = some reason;
    raw_answer = none;
  }

  -- `generate_from_context`, with `max_repair_attempts` of the configuration
  unfoldable pub generate_from_context : ℕ → Text → FailureReason → Text → GenerationResult S
  generate_from_context max_repair insufficient_answer empty_reason question =
      if is_empty context.evidence
      then without_evidence insufficient_answer empty_reason
      else result_of max_repair insufficient_answer (attempts max_repair 0 (first_request question))

-- What the retrieval of a request may meet: the results in the session's workspace, if it is used and
-- has any that can be read, and those of the retriever, where `none` is an exception.
pub record Retrieval (S : Type 0) : Type 0 where
  pub cached : Option (List (RetrievalResult S))
  pub caching : Bool
  pub fresh : Option (List (RetrievalResult S))

module _ {S : Type 0} where
  abbrev pub all_public : List (RetrievalResult S) → Bool
  all_public results = all (λ r. is_public r.visibility) results

  abbrev pub readable : Option (List (RetrievalResult S)) → Option (List (RetrievalResult S))
  readable none = none
  readable (some results) = if all_public results then some results else none

  abbrev pub cached_results : Retrieval S → Option (List (RetrievalResult S))
  cached_results r = if r.caching then readable r.cached else none

  -- The results that are put into the workspace.
  abbrev pub to_store : Bool → List (RetrievalResult S) → Option (List (RetrievalResult S))
  to_store caching results =
      if caching && (not (is_empty results) && all_public results) then some results else none

  abbrev pub from_cache_or :
      Option (List (RetrievalResult S))
      → Retrieval S
      → Option (List (RetrievalResult S) × Option (List (RetrievalResult S)))
  from_cache_or (some results) r = some (results, none)
  from_cache_or none r = elim r.fresh [
    | none ↦ none
    | some results ↦ some (results, to_store r.caching results)
  ]

  -- The results of a request, and what it stores; `none` is a `RetrievalFailure`.
  unfoldable pub retrieve :
      Retrieval S → Option (List (RetrievalResult S) × Option (List (RetrievalResult S)))
  retrieve r = from_cache_or (cached_results r) r

-- What the service is configured with.
pub record ServiceConfig : Type 0 where
  pub max_repair_attempts : ℕ
  pub budget : ContextBudget
  pub system_prompt : Text
  pub insufficient_answer : Text

module _ {S : Type 0} (p : Provider) (cfg : ServiceConfig) (str_int : ℕ → Text) where
  unfoldable pub answer_from : Text → Option Text → List (RetrievalResult S) → GenerationResult S
  answer_from question conversation results =
      generate_from_context p
        (build str_int cfg.budget cfg.system_prompt question results conversation)
        cfg.max_repair_attempts cfg.insufficient_answer empty_retrieval question

  -- `GroundedAnswerService.answer`
  unfoldable pub answer :
      Text
      → Option Text
      → Retrieval S
      → Option (GenerationResult S × Option (List (RetrievalResult S)))
  answer question conversation r = elim (retrieve r) [
    | none ↦ none
    | some (results, stored) ↦ some (answer_from question conversation results, stored)
  ]
