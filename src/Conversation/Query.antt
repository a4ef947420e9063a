-- ===== src/Conversation/Query.antt =====
-- `render` and `retrieval_query` of src/zglab_rag/conversation/context.py.
use zglab_rag.Prelude.{
  ℕ, suc, true, Bool-cases, ◌+◌, ◌-◌, ◌≤◌, ◌≡◌, refl, ap, ◌⊎◌, inl, inr, Bool, false, ◌||◌, Option,
  none, some, List, [], ◌∷◌, ◌++◌, map, Text, codes, length, length-append, ltb, if◌then◌else◌,
  if-cases, min, take, arith,
}
use zglab_rag.Generation.Context.{join}
use zglab_rag.Agent.Planner.{MessageRole, user, assistant, ConversationContextMessage}
use zglab_rag.Conversation.Budget.{
  bytes, truncate_text_to_budget, truncate_text_to_budget-IsTruncated, length-take,
}

-- What `render` reads.
pub record ConversationContext : Type 0 where
  pub summary : Option Text
  pub relevant_messages : List ConversationContextMessage
  pub recent_messages : List ConversationContextMessage

abbrev pub role_value : MessageRole → Text
role_value user = codes "USER"
role_value assistant = codes "ASSISTANT"

-- `_render_messages`
abbrev pub render_messages : List ConversationContextMessage → Text
render_messages ms = join (codes "\n") (map (λ m. role_value m.role ++ codes ": " ++ m.content) ms)

abbrev pub summary_part : Option Text → List Text
summary_part none = []
summary_part (some []) = []
summary_part (some (c ∷ t)) =
    (codes "CONVERSATION SUMMARY\n(untrusted compressed conversation state; not evidence)\n"
      ++ c ∷ t)
    ∷ []

abbrev pub messages_part : Text → List ConversationContextMessage → List Text
messages_part heading [] = []
messages_part heading (m ∷ ms) =
    (heading ++ codes "\n(untrusted reference data; not evidence)\n" ++ render_messages (m ∷ ms))
    ∷ []

unfoldable pub render : ConversationContext → Text
render c = join (codes "\n\n") (
    summary_part c.summary
    ++ messages_part (codes "RELEVANT HISTORICAL TURNS") c.relevant_messages
    ++ messages_part (codes "RECENT TURNS") c.recent_messages)

abbrev pub query_prefix : Text
query_prefix = codes "CONVERSATION REFERENCE (untrusted)\n"

abbrev pub query_suffix : Text
query_suffix = codes "\n\nCURRENT QUESTION:\n"

at_most : (l size room whole : ℕ) → l ≡ size → size ≤ min room whole → l ≤ room
at_most l size room whole h k = ground (arith, h, k)

module _ (bytes_of : ℕ → ℕ) where
  abbrev pub fixed_bytes : ℕ
  fixed_bytes = bytes bytes_of query_prefix + bytes bytes_of query_suffix

  abbrev pub fixed_chars : ℕ
  fixed_chars = length query_prefix + length query_suffix

  abbrev pub is_too_large : Text → ℕ → ℕ → Bool
  is_too_large question max_chars max_bytes =
      ltb max_chars (length question + fixed_chars)
      || ltb max_bytes (bytes bytes_of question + fixed_bytes)

  abbrev pub with_reference : Text → Text → Text
  with_reference reference question = query_prefix ++ reference ++ query_suffix ++ question

  -- `retrieval_query`
  unfoldable pub retrieval_query : ConversationContext → Text → ℕ → ℕ → Text
  retrieval_query c question max_chars max_bytes =
      if is_too_large question max_chars max_bytes
      then question
      else with_reference
          (truncate_text_to_budget bytes_of (render c) ((max_chars - fixed_chars) - length question)
            ((max_bytes - fixed_bytes) - bytes bytes_of question)).0
          question

  bytes-append : (s t : Text) → bytes bytes_of (s ++ t) ≡ bytes bytes_of s + bytes bytes_of t
  bytes-append [] t = omega arith
  bytes-append (c ∷ s) t = omega (arith, bytes-append s t)

  -- There is no room for the question with what is said around it.
  abbrev pub LeavesNoRoom : Text → ℕ → ℕ → Type 0
  LeavesNoRoom question max_chars max_bytes =
      (suc max_chars ≤ length (with_reference [] question))
      ⊎ (suc max_bytes ≤ bytes bytes_of (with_reference [] question))

  -- The question is whole after as much of the conversation as there is room for: a longer prefix would
  -- make the query too long, in characters or in bytes.
  pub record Quotes (c : ConversationContext) (question : Text) (max_chars max_bytes : ℕ)
      (query : Text) : Type 0 where
    pub size : ℕ
    pub quoted : query ≡ with_reference (take size (render c)) question
    pub few_chars : length query ≤ max_chars
    pub few_bytes : bytes bytes_of query ≤ max_bytes
    pub longest :
        (m : ℕ)
        → m ≤ length (render c)
        → length (with_reference (take m (render c)) question) ≤ max_chars
        → bytes bytes_of (with_reference (take m (render c)) question) ≤ max_bytes
        → m ≤ size

  abbrev pub IsQuery : ConversationContext → Text → ℕ → ℕ → Text → Type 0
  IsQuery c question max_chars max_bytes query =
      (LeavesNoRoom question max_chars max_bytes × (query ≡ question))
      ⊎ Quotes c question max_chars max_bytes query

  length-four :
      (p r t q : Text) → length (p ++ r ++ t ++ q) ≡ length p + (length r + (length t + length q))
  length-four p r t q =
      omega (arith, length-append (p ++ r ++ t) q, length-append (p ++ r) t, length-append p r)

  bytes-four :
      (p r t q : Text)
      → bytes bytes_of (p ++ r ++ t ++ q)
        ≡ bytes bytes_of p + (bytes bytes_of r + (bytes bytes_of t + bytes bytes_of q))
  bytes-four p r t q =
      omega (arith, bytes-append (p ++ r ++ t) q, bytes-append (p ++ r) t, bytes-append p r)

  fits :
      (p t r q : Text) (max_chars max_bytes : ℕ)
      → (ltb max_chars (length q + (length p + length t))
          || ltb max_bytes (bytes bytes_of q + (bytes bytes_of p + bytes bytes_of t)))
        ≡ false
      → length r ≤ (max_chars - (length p + length t)) - length q
      → bytes bytes_of r ≤ (max_bytes - (bytes bytes_of p + bytes bytes_of t)) - bytes bytes_of q
      → (length (p ++ r ++ t ++ q) ≤ max_chars) × (bytes bytes_of (p ++ r ++ t ++ q) ≤ max_bytes)
  fits p t r q max_chars max_bytes h a b =
      (ground (arith, h, a, length-four p r t q), ground (arith, h, b, bytes-four p r t q))

  no_room :
      (p t q : Text) (max_chars max_bytes : ℕ)
      → (ltb max_chars (length q + (length p + length t))
          || ltb max_bytes (bytes bytes_of q + (bytes bytes_of p + bytes bytes_of t)))
        ≡ true
      → (suc max_chars ≤ length (p ++ [] ++ t ++ q))
        ⊎ (suc max_bytes ≤ bytes bytes_of (p ++ [] ++ t ++ q))
  no_room p t q max_chars max_bytes h =
      elim (Bool-cases (ltb max_chars (length q + (length p + length t)))) [
        | inl e ↦ inl (ground (arith, e, length-four p [] t q))
        | inr e ↦ inr (ground (arith, h, e, bytes-four p [] t q))
      ]

  -- Where the query has room for a prefix, the truncation had.
  fits_back :
      (p t r q : Text) (max_chars max_bytes m whole : ℕ)
      → length r ≡ m
      → m ≤ whole
      → length (p ++ r ++ t ++ q) ≤ max_chars
      → bytes bytes_of (p ++ r ++ t ++ q) ≤ max_bytes
      → (m ≤ min ((max_chars - (length p + length t)) - length q) whole)
        × (bytes bytes_of r
            ≤ (max_bytes - (bytes bytes_of p + bytes bytes_of t)) - bytes bytes_of q)
  fits_back p t r q max_chars max_bytes m whole l n a b =
      (ground (arith, l, n, a, length-four p r t q), ground (arith, b, bytes-four p r t q))

  -- Either there is no room for the question with what is said around it, and the query is the question
  -- alone; or the query is within the budget, in characters and in bytes, and has the whole question after
  -- the longest prefix of what is quoted of the conversation for which there is room.
  pub retrieval_query-IsQuery :
      (c : ConversationContext) (question : Text) (max_chars max_bytes : ℕ)
      → IsQuery c question max_chars max_bytes (retrieval_query c question max_chars max_bytes)
  unfolding retrieval_query
  retrieval_query-IsQuery c question max_chars max_bytes =
      let room = (max_chars - fixed_chars) - length question in
      let byte_room = (max_bytes - fixed_bytes) - bytes bytes_of question in
      let r = (truncate_text_to_budget-IsTruncated bytes_of (render c) room byte_room).0 in
      let reference = (truncate_text_to_budget bytes_of (render c) room byte_room).0 in
      if-cases (IsQuery c question max_chars max_bytes) (is_too_large question max_chars max_bytes)
        question (with_reference reference question)
        (λ e. inl (no_room query_prefix query_suffix question max_chars max_bytes e, refl))
        (λ e.
          let w =
            fits query_prefix query_suffix reference question max_chars max_bytes e
              (at_most (length reference) r.size room (length (render c)) r.its_size r.few)
              r.fits in
          inr (record {
            size = r.size;
            quoted = ap (λ x. with_reference x question) r.is_prefix;
            few_chars = w.0;
            few_bytes = w.1;
            longest = λ m n a b.
                let back =
                  fits_back query_prefix query_suffix (take m (render c)) question max_chars
                    max_bytes m (length (render c)) (length-take bytes_of (render c) m n) n a b in
                r.longest m back.0 back.1;
          }))
