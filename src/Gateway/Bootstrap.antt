-- ===== src/Gateway/Bootstrap.antt =====
-- crates/gateway/src/state.rs: how the gateway is wired from its configuration, or by the builder.
pub mod Providers
pub mod Wire
pub mod Defaults
