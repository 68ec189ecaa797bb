-- ===== src/Manifest.antt =====
-- The validation of a skill manifest before it is installed (client/src-tauri/src/manifest.rs).
pub mod Formats
pub mod Issues
pub mod Access
pub mod Sets
pub mod Sections
pub mod Pricing
pub mod Declared
pub mod Panels
pub mod References
pub mod Canonical
pub mod Widgets
pub mod Normalize
pub mod Validate
pub mod Pieces
pub mod Paths
pub mod Clean
pub mod Consistent
pub mod Entries
pub mod Accepted
pub mod Safe
pub mod Sound
pub mod Shorthand
