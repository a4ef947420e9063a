-- ===== src/Agent.antt =====
-- The bounded agent: src/zglab_rag/agent.
pub mod Plan
pub mod Planner
pub mod Executor
mod Examples
