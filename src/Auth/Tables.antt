-- ===== src/Auth/Tables.antt =====
-- The tables of auth.db and the repositories over them: src/zglab_rag/auth/repositories.py.
-- No code deletes a user, so the foreign keys of the other tables always hold.
pub mod Users
pub mod Sessions
pub mod Tokens
pub mod Laws
