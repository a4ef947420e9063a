-- ===== src/Generation/Service/Answered.antt =====
-- What an answer that is given rests on, and how often the provider is called.
use zglab_rag.Prelude.{
  ℕ, zero, Option, none, some, suc, ◌+◌, ◌≤◌, ◌≡◌, refl, sym, ap, ◌∙◌, true, false, map, Text,
  arith, Bool-cases, Option-cases, inl, inr,
}
use zglab_rag.Generation.Contracts.{GeneratedAnswer}
use zglab_rag.Generation.Citation.{CitationValidation, is_empty, is_ok, validate_generated_answer}
use zglab_rag.Generation.Citation.Grounded.{well_cited, validate-well_cited}
use zglab_rag.Generation.Citation.Sources.{resolve_sources-validate}
use zglab_rag.Generation.Context.{BuiltContext}
use zglab_rag.Generation.Service.{
  answered, FailureReason, GenerationRequest, GenerationResult, Provider, ProviderOutcome, fails,
  responds, render_claims_answer, Attempt, provider_failed, accepted, rejected, Outcome,
  SemanticError, accepted_result, stopped, generated, exhausted, judged, received, attempt,
  attempts, last_outcome, next_outcome, with_feedback, first_request, result_of,
  generate_from_context,
}

-- The request for the question, with the feedback of the attempt before, if there was one.
abbrev pub asking :
    {S : Type 0} → Provider → BuiltContext S → Text → Option SemanticError → GenerationRequest
asking p context question feedback = record (first_request p context question) {
  repair_feedback = feedback;
}

-- The provider has given the output: to its call of this number, for this question, it responded with a
-- text that is parsed as the output.
pub record IsProvided {S : Type 0} (p : Provider) (context : BuiltContext S) (question : Text)
    (number : ℕ) (output : GeneratedAnswer) : Type 0 where
  pub feedback : Option SemanticError
  pub response : Text
  pub responded : p.generate number (asking p context question feedback) ≡ responds response
  pub parsed_as : p.parse response ≡ some output

-- An answer that is given is made of the claims of an output of the provider that is well cited, and of
-- nothing else; its sources are those that the validation has found cited, each of them.
pub record Rests {S : Type 0} (p : Provider) (context : BuiltContext S) (max_repair : ℕ)
    (question : Text) (r : GenerationResult S) : Type 0 where
  pub output : GeneratedAnswer
  pub provided : IsProvided p context question r.repair_attempts output
  pub in_time : r.repair_attempts ≤ max_repair
  pub cited : well_cited output context.evidence ≡ true
  pub not_declined : output.insufficient_evidence ≡ false
  pub claims : r.answer.claims ≡ output.claims
  pub text : r.answer.answer ≡ render_claims_answer output.claims
  pub sources :
      map (λ s. s.evidence_id) r.answer.sources
      ≡ (validate_generated_answer output context.evidence).cited_evidence_ids

module _ {S : Type 0} (p : Provider) (context : BuiltContext S) (question : Text) where
  -- What is accepted is an output of the provider, and valid.
  abbrev Sound : ℕ → GeneratedAnswer → CitationValidation → Type 0
  Sound n a v =
      IsProvided p context question n a
      × (v ≡ validate_generated_answer a context.evidence)
      × (is_ok v ≡ true)

  abbrev SoundAttempt : ℕ → Attempt → Type 0
  SoundAttempt n (provider_failed message) = Unit
  SoundAttempt n (accepted a v) = Sound n a v
  SoundAttempt n (rejected e text) = Unit

  abbrev SoundOutcome : ℕ → Outcome → Type 0
  SoundOutcome most (stopped message n) = Unit
  SoundOutcome most (generated a v n) = (n ≤ most) × Sound n a v
  SoundOutcome most (exhausted e text n) = Unit

  judged_sound :
      (n : ℕ) (a : GeneratedAnswer) (text : Text)
      → IsProvided p context question n a
      → SoundAttempt n (judged p context a (validate_generated_answer a context.evidence) text)
  judged_sound n a text o =
      elim (Bool-cases (is_ok (validate_generated_answer a context.evidence))) [
        | inl e ↦ rw e (o, refl, e)
        | inr e ↦ rw e tt
      ]

  received_sound :
      (n : ℕ) (f : Option SemanticError) (o : ProviderOutcome)
      → p.generate n (asking p context question f) ≡ o
      → SoundAttempt n (received p context o)
  received_sound n f (fails message) h = tt
  received_sound n f (responds text) h = elim (Option-cases (p.parse text)) [
    | inl e ↦ rw e tt
    | inr (a, e) ↦ rw e (
        judged_sound n a text
          (record { feedback = f; response = text; responded = h; parsed_as = e }))
  ]

  last_sound :
      (most n : ℕ) (x : Attempt)
      → n ≤ most
      → SoundAttempt n x
      → SoundOutcome most (last_outcome n x)
  last_sound most n (provider_failed message) le h = tt
  last_sound most n (accepted a v) le h = (le, h)
  last_sound most n (rejected e text) le h = tt

  next_sound :
      (most n : ℕ) (next : SemanticError → Outcome) (x : Attempt)
      → n ≤ most
      → SoundAttempt n x
      → ((e : SemanticError) → SoundOutcome most (next e))
      → SoundOutcome most (next_outcome n next x)
  next_sound most n next (provider_failed message) le h k = tt
  next_sound most n next (accepted a v) le h k = (le, h)
  next_sound most n next (rejected e text) le h k = k e

  attempts_sound :
      (most left n : ℕ) (f : Option SemanticError)
      → n + left ≤ most
      → SoundOutcome most (attempts p context left n (asking p context question f))
  unfolding attempts attempt
  attempts_sound most zero n f le =
      last_sound most n (attempt p context n (asking p context question f)) (omega (arith, le))
        (received_sound n f (p.generate n (asking p context question f)) refl)
  attempts_sound most (suc left) n f le =
      next_sound most n
        (λ e.
          attempts p context left (n + 1) (with_feedback p context e (asking p context question f)))
        (attempt p context n (asking p context question f)) (omega (arith, le))
        (received_sound n f (p.generate n (asking p context question f)) refl)
        (λ e. attempts_sound most left (n + 1) (some e) (omega (arith, le)))

  accepted_Rests :
      (most : ℕ) (text : Text) (a : GeneratedAnswer) (v : CitationValidation) (n : ℕ)
      → (n ≤ most) × Sound n a v
      → (accepted_result p context text a v n).status ≡ answered
      → Rests p context most question (accepted_result p context text a v n)
  accepted_Rests most text a v n (le, (o, e, k)) h = elim (Bool-cases a.insufficient_evidence) [
    | inl d ↦ cc (rw d at h)
    | inr d ↦ rw d (record {
      output = a;
      provided = o;
      in_time = le;
      cited = sym (validate-well_cited a context.evidence) ∙ ap is_ok (sym e) ∙ k;
      not_declined = d;
      claims = refl;
      text = refl;
      sources = rw e (resolve_sources-validate a context.evidence);
    })
  ]

  outcome_Rests :
      (max_repair : ℕ) (text : Text) (o : Outcome)
      → SoundOutcome max_repair o
      → (result_of p context max_repair text o).status ≡ answered
      → Rests p context max_repair question (result_of p context max_repair text o)
  outcome_Rests max_repair text (stopped message n) s h = cc
  outcome_Rests max_repair text (generated a v n) s h = accepted_Rests max_repair text a v n s h
  outcome_Rests max_repair text (exhausted e t n) s h = cc

  -- A status of "answered" means: the provider's call whose number is the `repair_attempts` of the result, at
  -- most `max_repair`, made for this question, responded with a text that parses as an output; that output is
  -- well cited in the evidence and does not decline, the answer's claims and text are its claims, and the
  -- sources of the answer are those that it cites.
  pub generate_from_context-Rests :
      (max_repair : ℕ) (text : Text) (reason : FailureReason)
      → (generate_from_context p context max_repair text reason question).status ≡ answered
      → Rests p context max_repair question
          (generate_from_context p context max_repair text reason question)
  unfolding generate_from_context
  generate_from_context-Rests max_repair text reason h =
      elim (Bool-cases (is_empty context.evidence)) [
        | inl e ↦ cc
        | inr e ↦ rw e (
            outcome_Rests max_repair text
              (attempts p context max_repair 0 (first_request p context question))
              (attempts_sound max_repair max_repair 0 none (omega arith)) (rw e at h))
      ]

same_next :
    (n : ℕ) (x : Attempt) (f g : SemanticError → Outcome)
    → ((e : SemanticError) → f e ≡ g e)
    → next_outcome n f x ≡ next_outcome n g x
same_next n (provider_failed message) f g h = refl
same_next n (accepted a v) f g h = refl
same_next n (rejected e text) f g h = h e

module _ {S : Type 0} (p q : Provider) (context : BuiltContext S) where
  -- The two providers parse alike, and answer alike up to the given call.
  pub record Alike (last : ℕ) : Type 0 where
    pub parses : (text : Text) → p.parse text ≡ q.parse text
    pub answers :
        (n : ℕ) (request : GenerationRequest)
        → n ≤ last
        → p.generate n request ≡ q.generate n request

  received_alike :
      (o : ProviderOutcome)
      → ((text : Text) → p.parse text ≡ q.parse text)
      → received p context o ≡ received q context o
  received_alike (fails message) h = refl
  received_alike (responds text) h = rw (h text) refl

  attempt-Alike :
      (last n : ℕ) (request : GenerationRequest)
      → Alike last
      → n ≤ last
      → attempt p context n request ≡ attempt q context n request
  unfolding attempt
  attempt-Alike last n request h le =
      ap (received p context) (h.answers n request le)
      ∙ received_alike (q.generate n request) h.parses

  attempts-Alike :
      (left n last : ℕ) (request : GenerationRequest)
      → Alike last
      → n + left ≤ last
      → attempts p context left n request ≡ attempts q context left n request
  unfolding attempts
  attempts-Alike zero n last request h le =
      ap (last_outcome n) (attempt-Alike last n request h (omega arith))
  attempts-Alike (suc left) n last request h le =
      ap (next_outcome n (λ e. attempts p context left (n + 1) (with_feedback p context e request)))
        (attempt-Alike last n request h (omega arith))
      ∙ (same_next n (attempt q context n request)
          (λ e. attempts p context left (n + 1) (with_feedback p context e request))
          (λ e. attempts q context left (n + 1) (with_feedback q context e request))
          (λ e.
            attempts-Alike left (n + 1) last (with_feedback p context e request) h (omega arith)))

  -- The provider is called at most `max_repair + 1` times: what it would answer to a later call does
  -- not matter.
  pub generate_from_context-Alike :
      (max_repair : ℕ) (text question : Text) (reason : FailureReason)
      → Alike max_repair
      → generate_from_context p context max_repair text reason question
        ≡ generate_from_context q context max_repair text reason question
  unfolding generate_from_context
  generate_from_context-Alike max_repair text question reason h =
      rw (attempts-Alike max_repair 0 max_repair (first_request p context question) h (omega arith))
        refl
