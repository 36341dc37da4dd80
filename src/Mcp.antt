-- ===== src/Mcp.antt =====
-- mcp/: what the tools read and answer.
pub mod Money
pub mod Dates
pub mod Query
