-- ===== src/Api.antt =====
-- The HTTP interface: the slots of /api/v2/ask.
pub mod Slots
mod Examples
