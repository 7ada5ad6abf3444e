-- ===== src/Gateway.antt =====
-- crates/gateway/src: the HTTP gateway.
pub mod State
pub mod Handler
pub mod Auth
pub mod Config
pub mod Bootstrap
pub mod Validation
pub mod ControlPlane
pub mod DataPlane
