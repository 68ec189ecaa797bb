-- ===== src/Version.antt =====
-- Semantic versions (client/src-tauri/src/templates.rs, and the same code in skill_manager.rs).
pub mod Semver
pub mod Order
pub mod RoundTrip
