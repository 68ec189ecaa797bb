-- ===== src/Capacity.antt =====
-- The capacity and headroom meters (client/src-tauri/src/capacity.rs). `u32` figures are numbers; the
-- saturating operations are written out.
pub mod Projection
pub mod Budget
pub mod Headroom
