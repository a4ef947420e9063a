-- ===== src/Conversation/Examples.antt =====
-- A text that is cut for its bytes.
use zglab_rag.Prelude.{ℕ, codes, some, []}
use zglab_rag.Conversation.Query.{
  ConversationContext, IsQuery, retrieval_query, retrieval_query-IsQuery,
}
use zglab_rag.Conversation.Budget.{
  IsTruncated, truncate_text_to_budget, truncate_text_to_budget-IsTruncated,
}

-- Three bytes for every character, as for a Chinese one.
abbrev three_bytes : ℕ → ℕ
three_bytes c = 3

truncate_text_to_budget-IsTruncated_example :
    IsTruncated three_bytes 4 10
      (codes "abcdef")
      (truncate_text_to_budget three_bytes (codes "abcdef") 4 10)
truncate_text_to_budget-IsTruncated_example =
    truncate_text_to_budget-IsTruncated three_bytes (codes "abcdef") 4 10

abbrev context : ConversationContext
context = record {
  summary = some (codes "about cubes");
  relevant_messages = [];
  recent_messages = [];
}

retrieval_query-IsQuery_example :
    IsQuery three_bytes context
      (codes "why")
      80
      300
      (retrieval_query three_bytes context (codes "why") 80 300)
retrieval_query-IsQuery_example = retrieval_query-IsQuery three_bytes context (codes "why") 80 300
