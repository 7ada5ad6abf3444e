-- ===== src/Examples.antt =====
-- A small gateway, on which the examples run: an in-memory store, the no-op deployment provider, a
-- policy that allows everything and one that refuses everything.
mod Adapters
mod Tools
mod Policy
mod Router
mod Call
mod Deploy
mod Tokens
mod Stores
mod Forward
mod Dispatch
use mcp_oxide.Prelude.{ℕ, String, Option, none, some, List, [], ◌∷◌, refl}
use mcp_oxide.Core.Error.{Error, unauthenticated, internal, Result, ok, err}
use mcp_oxide.Core.Json
use mcp_oxide.Core.Identity.{UserContext}
use mcp_oxide.Core.Policy.{allow_decision}
use mcp_oxide.Core.Providers.{IdProvider, PolicyEngine, DeploymentProvider, DeploymentSpec}
use mcp_oxide.Authz.{deny_all_engine}
use mcp_oxide.Deployment.{noop_external_provider}
use mcp_oxide.Metadata.Memory.{InMemoryMetadataStore, empty_store, in_memory_store}
use mcp_oxide.Gateway.State.{AppState, World}
use mcp_oxide.Gateway.Handler.{Host, HeaderMap}
use mcp_oxide.Gateway.ControlPlane.Helpers.ETag.{KeepsText}

abbrev pub host : Host String
host = record {
  now = 1000;
  timestamp = "1970-01-01T00:00:00Z";
  new_uuid = "00000000-0000-4000-8000-000000000000";
  to_str = λ v. some v;
  from_str = λ s. some s;
  to_rfc3339 = λ t. "1970-01-01T00:00:00Z";
}

pub host-KeepsText : KeepsText host
host-KeepsText = record { keeps = λ s visible. (s, refl, refl) }

abbrev pub allow_all_engine : PolicyEngine
allow_all_engine = record { decide = λ input. ok allow_decision }

abbrev pub admin : UserContext
admin = record {
  sub = "alice";
  tenant = none;
  roles = "admin" ∷ [];
  groups = [];
  scopes = [];
  claims = Json.null;
}

abbrev pub gateway_with :
    PolicyEngine → DeploymentProvider Unit → AppState InMemoryMetadataStore Unit
gateway_with engine deployment = record {
  identity = record { validate = λ token. err (unauthenticated token) };
  authz = engine;
  deployment = deployment;
  metadata = in_memory_store;
  adapters = [];
}

abbrev pub open_gateway : AppState InMemoryMetadataStore Unit
open_gateway = gateway_with allow_all_engine noop_external_provider

abbrev pub closed_gateway : AppState InMemoryMetadataStore Unit
closed_gateway = gateway_with deny_all_engine noop_external_provider

-- a runtime that deploys nothing and deletes nothing
abbrev pub broken_gateway : AppState InMemoryMetadataStore Unit
broken_gateway = gateway_with allow_all_engine (record noop_external_provider {
  apply = λ spec d. (err (internal "no runtime"), d);
  delete = λ handle d. (err (internal "no runtime"), d);
})

abbrev pub no_headers : HeaderMap String
no_headers = record { x_request_id = none; if_match = none; authorization = none }

abbrev pub fresh_world : World InMemoryMetadataStore Unit
fresh_world = record { store = empty_store; cluster = tt; audit = [] }
