-- ===== src/Deployment.antt =====
-- crates/deployment/src/noop.rs: the provider for workloads that are managed elsewhere. It keeps no
-- state, so that any type serves as the runtime's.
pub mod Image
pub mod Docker
use mcp_oxide.Prelude.{String, true, Option, none, some, List, [], ◌∷◌}
use mcp_oxide.Core.Error.{ok}
use mcp_oxide.Core.Providers.{DeploymentSpec, DeploymentHandle, DeploymentProvider, BackendEndpoint}

unfoldable pub extract_upstream : DeploymentSpec → Option String
extract_upstream spec = elim spec.adapter [ none ↦ none | some a ↦ a.upstream ]

-- an endpoint is known only where the handle still has the URL of `apply`
unfoldable pub endpoints_of : DeploymentHandle → List BackendEndpoint
endpoints_of handle = elim handle.endpoint_url [
  | none ↦ []
  | some url ↦ record { url = url; backend_id = record { backend = handle.id } } ∷ []
]

abbrev pub noop_external_provider : {D : Type 0} → DeploymentProvider D
noop_external_provider = record {
  apply = λ spec d.
      (ok (record { id = spec.name; namespace = none; endpoint_url = extract_upstream spec }), d);
  delete = λ handle d. (ok tt, d);
  status = λ handle d.
      ok (record { ready = true; replicas = 1; ready_replicas = 1; message = some "external" });
  endpoints = λ handle d. ok (endpoints_of handle);
}
