-- ===== src/Domain.antt =====
-- internal/domain: the entities and the pure rules.
pub mod Finding
pub mod Errors
pub mod Role
pub mod Report
pub mod Version
pub mod Requirement
pub mod Secret
pub mod NameOrder
pub mod Catalogue
pub mod Topology
pub mod Validate
pub mod Observe
