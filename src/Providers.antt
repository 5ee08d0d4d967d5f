-- ===== src/Providers.antt =====
-- `src/providers.rs`: the known providers, and which provider a service stands for.
pub mod Defs
pub mod Table
pub mod Resolve
pub mod Coherence
pub mod Defaults
pub mod Usage
