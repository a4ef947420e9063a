-- ===== src/Ingestion.antt =====
-- The ingestion of documents: src/zglab_rag/ingestion.
pub mod Chunking
mod Examples
