-- ===== src/Limits/Throttle.antt =====
-- src/zglab_rag/auth/throttle.py: login attempts are limited per address and per user name.
pub mod Defs
pub mod Effects
pub mod Admission
