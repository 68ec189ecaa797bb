-- ===== src/Samples.antt =====
-- Concrete values for the tests: documents, numbers, skills, an engine and tools.
pub mod Doc
pub mod Nats
pub mod Agents
pub mod Worlds
pub mod Manifests
