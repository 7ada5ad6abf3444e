-- ===== src/Gateway/DataPlane.antt =====
-- crates/gateway/src/routes: data_plane_helpers.rs and tool_router.rs, the requests that reach
-- tools, and data_plane.rs with crates/gateway/src/proxy.rs, those that reach adapters.
pub mod Helpers
pub mod ToolRouter
pub mod ToolCall
pub mod Dispatch
pub mod Proxy
pub mod Invoke
