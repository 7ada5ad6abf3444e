-- ===== src/Core.antt =====
-- crates/core/src: the domain model and the provider interfaces that the other crates share.
pub mod Error
pub mod Json
pub mod Identity
pub mod Policy
pub mod Model
pub mod Audit
pub mod Providers
