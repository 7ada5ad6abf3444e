-- ===== src/Gateway/ControlPlane.antt =====
-- crates/gateway/src/routes/control_plane.rs and control_plane_helpers.rs: the endpoints for
-- adapters and tools.
pub mod Helpers
pub mod Bodies
pub mod Steps
pub mod Guarantees
pub mod Adapters
pub mod Tools
