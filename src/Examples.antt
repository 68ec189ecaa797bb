-- ===== src/Examples.antt =====
-- Tests: the theorems at concrete inputs.
mod Manifest
mod Orchestrator
mod Capacity
mod SharedState
mod Catalog
mod Turn
mod Routing
mod Slots
mod Templates
mod Skills
mod Unlock
mod Composition
