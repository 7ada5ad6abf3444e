-- ===== src/Gateway/State.antt =====
-- crates/gateway/src/state.rs: the state that the handlers share, and the resolution of adapters
-- and tools to the URL of a backend.
use mcp_oxide.Prelude.{String, Option, none, some, List, [], ◌∷◌, ◌==◌, if◌then◌else◌}
use mcp_oxide.Core.Error.{Error, Result, ok, err}
use mcp_oxide.Core.Model.{Adapter, Tool}
use mcp_oxide.Core.Audit.{AuditRecord}
use mcp_oxide.Core.Providers.{
  IdProvider, PolicyEngine, DeploymentProvider, DeploymentHandle, BackendEndpoint, MetadataStore,
}

pub record ResolvedAdapter : Type 0 where
  pub name : String
  pub upstream : String
  pub required_roles : List String
  pub tags : List String

-- `AppState`, as far as the handlers read it: the providers and the static adapters. `M` and `D`
-- are the states of the metadata store and of the deployment runtime.
pub record AppState (M D : Type 0) : Type 0 where
  pub identity : IdProvider
  pub authz : PolicyEngine
  pub deployment : DeploymentProvider D
  pub metadata : MetadataStore M
  pub adapters : List (String × ResolvedAdapter)

-- What the handlers read and write behind the providers: the two states, and the records that
-- were handed to the audit sink, the last one first. A sink that fails changes nothing else.
pub record World (M D : Type 0) : Type 0 where
  pub store : M
  pub cluster : D
  pub audit : List AuditRecord

-- `HashMap::get`
pub lookup {ℓ} : {V : Type ℓ} → String → List (String × V) → Option V
lookup k [] = none
lookup k ((j, v) ∷ m) = if j == k then some v else lookup k m

-- the handle that is rebuilt from a name
abbrev pub named_handle : String → DeploymentHandle
named_handle name = record { id = name; namespace = none; endpoint_url = none }

abbrev pub first_url : List BackendEndpoint → Option String
first_url [] = none
first_url (ep ∷ eps) = some ep.url

abbrev pub resolved : Adapter → String → ResolvedAdapter
resolved a url = record {
  name = a.name;
  upstream = url;
  required_roles = a.required_roles;
  tags = a.tags;
}

-- a provider that fails counts as one with no endpoint
abbrev pub managed : Adapter → Result Error (List BackendEndpoint) → Option ResolvedAdapter
managed a (err e) = none
managed a (ok []) = none
managed a (ok (ep ∷ eps)) = some (resolved a ep.url)

module _ {M D : Type 0} (state : AppState M D) (w : World M D) where
  abbrev resolve_stored : Result Error (Option Adapter) → Result Error (Option ResolvedAdapter)
  resolve_stored (err e) = err e
  resolve_stored (ok none) = ok none
  resolve_stored (ok (some a)) = elim a.upstream [
    | some url ↦ ok (some (resolved a url))
    | none ↦ ok (managed a (state.deployment.endpoints (named_handle a.name) w.cluster))
  ]

  unfoldable pub resolve_adapter : String → Result Error (Option ResolvedAdapter)
  unfolding lookup
  resolve_adapter name = elim (lookup name state.adapters) [
    | some a ↦ ok (some a)
    | none ↦ resolve_stored (state.metadata.get_adapter name w.store)
  ]

  abbrev with_url :
      Tool → Result Error (List BackendEndpoint) → Result Error (Option (Tool × String))
  with_url t (err e) = err e
  with_url t (ok []) = ok none
  with_url t (ok (ep ∷ eps)) = ok (some (t, ep.url))

  abbrev resolve_stored_tool : Result Error (Option Tool) → Result Error (Option (Tool × String))
  resolve_stored_tool (err e) = err e
  resolve_stored_tool (ok none) = ok none
  resolve_stored_tool (ok (some t)) =
      with_url t (state.deployment.endpoints (named_handle t.name) w.cluster)

  unfoldable pub resolve_tool_endpoint : String → Result Error (Option (Tool × String))
  resolve_tool_endpoint name = resolve_stored_tool (state.metadata.get_tool name w.store)
