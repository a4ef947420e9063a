-- ===== src/Limits/Quota.antt =====
-- `UsageGuard` of src/zglab_rag/auth/quota.py.
pub mod Defs
pub mod Bounds
pub mod Runs
