-- ===== src/Conversation.antt =====
-- The conversations: src/zglab_rag/conversation.
pub mod Budget
pub mod Query
mod Examples
