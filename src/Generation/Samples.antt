-- ===== src/Generation/Samples.antt =====
-- A context and a provider, for the generation on concrete inputs.
use zglab_rag.Prelude.{
  ℕ, zero, suc, ◌+◌, ◌≤◌, ◌≡◌, refl, true, false, none, some, List, [], ◌∷◌, Text, codes, all,
  arith, text_eq,
}
use zglab_rag.Generation.Contracts.{public, private, Visibility, GeneratedAnswer}
use zglab_rag.Generation.Citation.{matches_evidence_id, is_ok, dedupe, validate_generated_answer}
use zglab_rag.Generation.Context.{
  ContextBudget, RetrievalResult, BuiltContext, select_evidence, build_evidence_items, build,
  select_from, render_evidence_block, render_personal_evidence_block, build_user_prompt,
}
use zglab_rag.Generation.Context.Budget.{Selected, select_evidence-Selected}
use zglab_rag.Generation.Context.Public.{is_public_item, build_public}
use zglab_rag.Generation.Service.{
  GenerationRequest, Provider, ProviderOutcome, fails, responds, empty_evidence,
  generate_from_context, attempts, attempt,
}
use zglab_rag.Generation.Service.Answered.{
  Rests, generate_from_context-Rests, generate_from_context-Alike,
}

abbrev budget : ContextBudget
budget = record { max_evidence_items = 2; max_context_chars = 60 }

abbrev digit : ℕ → Text
digit n = (48 + n) ∷ []

abbrev row : ℕ → Visibility → Text → RetrievalResult ℕ
row rank visibility content = record {
  chunk_id = codes "chunk";
  document_id = codes "doc";
  source_id = codes "notes";
  source_path = codes "notes.md";
  title = codes "Notes";
  section_path = [];
  content = content;
  visibility = visibility;
  revision = none;
  rank = rank;
  score = 7;
}

abbrev rows : List (RetrievalResult ℕ)
rows =
    row 2 public (codes "second")
    ∷ row 1 public (codes "first")
    ∷ row 3 private (codes "hidden")
    ∷ []

abbrev context : BuiltContext ℕ
context = build digit budget (codes "system") (codes "question") rows none

select_evidence-Selected_example :
    Selected budget
      (build_evidence_items digit rows)
      (select_evidence (build_evidence_items digit rows) budget)
select_evidence-Selected_example =
    select_evidence-Selected (build_evidence_items digit rows) budget (omega arith)

build_public_example : all is_public_item context.evidence ≡ true
build_public_example = build_public digit budget (codes "system") (codes "question") rows none

abbrev output : GeneratedAnswer
output = record {
  answer = codes "an answer";
  claims = record { text = codes "a claim"; citations = codes "E1" ∷ [] } ∷ [];
  citations = [];
  insufficient_evidence = false;
}

-- The first output is no structured answer, and the second is.
abbrev first_then : (Text → ProviderOutcome) → Provider
first_then later = record {
  generate = λ n r. elim n [
    | zero ↦ responds (codes "{")
    | suc zero ↦ responds (codes "{}")
    | suc (suc m) ↦ later r.question
  ];
  parse = λ text. elim text [ b ∷ c ∷ s ↦ some output | _ ↦ none ];
}

abbrev provider : Provider
provider = first_then responds

samples : Unit {0}
unfolding matches_evidence_id is_ok dedupe validate_generated_answer select_evidence
    build_evidence_items build select_from render_evidence_block render_personal_evidence_block
    build_user_prompt generate_from_context attempts attempt
samples = tt

generate_from_context-Rests_example :
    Rests provider context 1
      (codes "question")
      (generate_from_context provider context 1 (codes "none") empty_evidence (codes "question"))
unfolding samples
generate_from_context-Rests_example =
    generate_from_context-Rests provider context (codes "question") 1 (codes "none") empty_evidence
      refl

first_two :
    (n : ℕ) (r : GenerationRequest)
    → n ≤ 1
    → provider.generate n r ≡ (first_then fails).generate n r
first_two zero r h = refl
first_two (suc zero) r h = refl
first_two (suc (suc n)) r h = absurd (omega arith)

generate_from_context-Alike_example :
    generate_from_context provider context 1 (codes "none") empty_evidence (codes "question")
    ≡ generate_from_context
        (first_then fails)
        context
        1
        (codes "none")
        empty_evidence
        (codes "question")
generate_from_context-Alike_example =
    generate_from_context-Alike provider (first_then fails) context 1 (codes "none")
      (codes "question") empty_evidence (record { parses = λ t. refl; answers = first_two })
