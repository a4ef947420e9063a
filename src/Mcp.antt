-- ===== src/Mcp.antt =====
-- The host of the MCP tools: src/zglab_rag/mcp.
pub mod Contracts
pub mod Runtime
mod Examples
