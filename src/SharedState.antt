-- ===== src/SharedState.antt =====
-- The shared-state slots of an agent (client/src-tauri/src/shared_state.rs).
pub mod Types
pub mod Compat
pub mod Fields
pub mod Agreement
pub mod Splitting
pub mod Schema
pub mod Pieces
pub mod ParseTotal
pub mod Resolve
pub mod Resolved
pub mod Store
pub mod Ids
pub mod Commute
pub mod Numbered
pub mod Preserved
pub mod Runs
pub mod Fresh
pub mod Writes
pub mod Patches
pub mod Build
