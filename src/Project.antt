-- ===== src/Project.antt =====
-- Package internal/project: project codes and keys, the manifest, and the durable project registry.
pub mod Code
pub mod Manifest
pub mod Key
pub mod Registry
pub mod Samples
