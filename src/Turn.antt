-- ===== src/Turn.antt =====
-- The turn state machine (client/src-tauri/src/turn.rs).
pub mod Types
pub mod Machine
pub mod Trace
pub mod Loop
pub mod Runs
pub mod Bounds
