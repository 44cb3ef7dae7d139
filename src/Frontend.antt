-- ===== src/Frontend.antt =====
-- internal/mcpfrontend: the MCP adapter over the operation registry.
pub mod Json
pub mod Schemas
pub mod Tools
pub mod Progress
pub mod Calls
pub mod Audit
mod Examples
