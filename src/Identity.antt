-- ===== src/Identity.antt =====
-- crates/identity/src/lib.rs: the providers of identity, and the one that refuses every token.
pub mod Claims
pub mod Jwt
pub mod StaticJwt
pub mod Oidc
use mcp_oxide.Core.Error.{unauthenticated, err}
use mcp_oxide.Core.Providers.{IdProvider}

abbrev pub noop_id_provider : IdProvider
noop_id_provider = record {
  validate = λ token. err (unauthenticated "no identity provider configured");
}
