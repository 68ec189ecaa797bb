-- ===== src/Catalog.antt =====
-- The fixed catalog of tools (client/src-tauri/src/tool_catalog.rs).
pub mod Names
pub mod Types
pub mod Getters
pub mod Args
pub mod Execute
pub mod Sound
pub mod Total
pub mod Refusals
pub mod Errors
