-- ===== src/Skills.antt =====
-- The lifecycle of skills (client/src-tauri/src/skill_manager.rs).
pub mod Entry
pub mod Manager
pub mod Lifecycle
pub mod Simulation
pub mod Calls
pub mod Reachable
pub mod Refines
pub mod Activation
