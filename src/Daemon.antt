-- ===== src/Daemon.antt =====
-- Package internal/daemon: the published endpoint, the MCP credential, and how requests are admitted, dispatched and answered.
pub mod Endpoint
pub mod Dispatch
pub mod Run
pub mod Access
pub mod Credential
pub mod Discovery
pub mod Ownership
pub mod Serve
