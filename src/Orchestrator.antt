-- ===== src/Orchestrator.antt =====
-- Skill composition and merge (client/src-tauri/src/orchestrator.rs).
pub mod Manifest
pub mod Tools
pub mod Namespacing
pub mod Merge
pub mod Conflicts
pub mod Primary
pub mod Leader
pub mod Ordering
pub mod Clashes
pub mod Determinism
