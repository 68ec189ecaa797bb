-- ===== src/Routing.antt =====
-- Capabilities and the routing of tools (client/src-tauri/src/tool_routing.rs).
pub mod Capabilities
pub mod Declared
pub mod Routes
pub mod Lookup
