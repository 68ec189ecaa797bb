-- ===== src/Unlock.antt =====
-- Unlock codes and the state that they unlock (client/src-tauri/src/unlock.rs).
pub mod Sha256
pub mod Codes
pub mod Compare
pub mod Padding
pub mod Tags
pub mod Verify
pub mod Panics
pub mod Redeem
pub mod Persists
