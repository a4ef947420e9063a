-- ===== src/Limits/Window.antt =====
-- The sliding window that src/zglab_rag/api/rate_limit.py and src/zglab_rag/auth/throttle.py share.
pub mod Defs
pub mod Tracks
