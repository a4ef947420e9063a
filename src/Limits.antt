-- ===== src/Limits.antt =====
-- Limits on use: the sliding windows of the API and of the login, and the quotas of the users.
pub mod Window
pub mod RateLimit
pub mod Quota
pub mod Throttle
mod Examples
