-- ===== src/Core/Identity.antt =====
-- crates/core/src/identity.rs: the user that an identity provider derives from a token.
use mcp_oxide.Prelude.{String, Bool, Option, List, any, ◌==◌}
use mcp_oxide.Core.Json.{Json}

pub record UserContext : Type 0 where
  pub sub : String
  pub tenant : Option String
  pub roles : List String
  pub groups : List String
  pub scopes : List String
  pub claims : Json

unfoldable pub has_role : UserContext → String → Bool
has_role u role = any (λ r. r == role) u.roles
