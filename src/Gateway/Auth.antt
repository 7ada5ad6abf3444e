-- ===== src/Gateway/Auth.antt =====
-- crates/gateway/src/auth.rs: the extractor that authenticates a request.
pub mod Bearer
use mcp_oxide.Prelude.{ℕ, String, Option, none, some, or_else}
use mcp_oxide.Text.{strip_prefix}
use mcp_oxide.Core.Error.{Error, to_string, Result, ok, err}
use mcp_oxide.Core.Identity.{UserContext}
use mcp_oxide.Core.Providers.{IdProvider}
use mcp_oxide.Gateway.Handler.{Host, HeaderMap}

pub record AuthRejection : Type 0 where
  pub message : String

abbrev pub missing : AuthRejection
missing = record { message = "missing bearer token" }

abbrev pub malformed : AuthRejection
malformed = record { message = "malformed Authorization header" }

unfoldable pub unauthenticated_by : Error → AuthRejection
unauthenticated_by e = record { message = to_string e }

-- the status, `error` and `message` of the response
abbrev pub rejection_response : AuthRejection → ℕ × String × String
rejection_response r = (401, "unauthenticated", r.message)

abbrev validated : Result Error UserContext → Result AuthRejection UserContext
validated (ok user) = ok user
validated (err e) = err (unauthenticated_by e)

abbrev with_token : IdProvider → Option String → Result AuthRejection UserContext
with_token identity none = err malformed
with_token identity (some token) = validated (identity.validate token)

-- the token behind `Bearer ` or `bearer `
unfoldable pub bearer_token : String → Option String
bearer_token text = or_else (strip_prefix "Bearer " text) (strip_prefix "bearer " text)

abbrev with_text : IdProvider → Option String → Result AuthRejection UserContext
with_text identity none = err missing
with_text identity (some text) = with_token identity (bearer_token text)

module _ {V : Type 0} (host : Host V) (identity : IdProvider) where
  abbrev header_text : Option V → Option String
  header_text none = none
  header_text (some v) = host.to_str v

  unfoldable pub from_request_parts : HeaderMap V → Result AuthRejection UserContext
  from_request_parts headers = with_text identity (header_text headers.authorization)
