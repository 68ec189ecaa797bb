-- ===== src/Templates.antt =====
-- Saved agents with pinned skill versions (client/src-tauri/src/templates.rs).
pub mod Pins
pub mod Ranges
pub mod Documents
pub mod Loading
pub mod Newest
pub mod Updates
