-- ===== src/Index.antt =====
-- The index: src/zglab_rag/indexing and the writing half of storage/repositories.py.
pub mod Plan
pub mod Store
mod Examples
