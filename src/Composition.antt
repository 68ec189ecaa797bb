-- ===== src/Composition.antt =====
-- The composition of the enabled skills into one agent (client/src-tauri/src/composition.rs).
pub mod Compose
pub mod Composed
