-- ===== src/Limits/RateLimit.antt =====
-- src/zglab_rag/api/rate_limit.py: the request limiter of the API, a sliding window per client.
-- The clock's reading is an argument; a call is one critical section of the lock.
pub mod Defs
pub mod Admission
pub mod Retry
