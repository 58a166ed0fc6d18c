-- ===== src/Core.antt =====
-- crates/cxs-core: validated names, the routing contract, profiles and session scopes.
pub mod Names
pub mod Routing
pub mod Profile
pub mod Scope
pub mod Paths
pub mod Store
