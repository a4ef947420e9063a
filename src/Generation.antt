-- ===== src/Generation.antt =====
-- The grounding of generated answers: src/zglab_rag/generation.
pub mod Contracts
pub mod Citation
pub mod Context
pub mod Service
mod Examples
mod Samples
