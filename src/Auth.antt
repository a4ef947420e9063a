-- ===== src/Auth.antt =====
-- Authentication: src/zglab_rag/auth/.
pub mod Models
pub mod Exec
pub mod Db
pub mod Tables
pub mod Password
pub mod Identity
pub mod Session
pub mod History
mod Examples
