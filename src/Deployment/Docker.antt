-- ===== src/Deployment/Docker.antt =====
-- crates/deployment/src/docker.rs: adapters and tools as containers of a Docker daemon.
pub mod Daemon
pub mod Limits
pub mod Policy
pub mod Container
pub mod Provider
