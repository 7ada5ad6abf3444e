-- ===== src/Gateway/ControlPlane/Adapters/Registered.antt =====
-- What `create_adapter` stores, field by field.
use mathlib.Core.Option
use mcp_oxide.Prelude.{none, some, ◌≡◌, inl, inr, map, refl, Option-cases, unwrap_or}
use mcp_oxide.Gateway.ControlPlane.Bodies.{
  CreateAdapterBody, EnvVarBody, SecretRefBody, ResourcesBody, HealthProbeBody,
}
use mcp_oxide.Gateway.ControlPlane.Adapters.{adapter_of_body}
use mcp_oxide.Core.Model.{DateTime, Adapter}
use mcp_oxide.Gateway.ControlPlane.Guarantees.{IsAffinityFor, affinity_of-IsAffinityFor}

-- what is registered of a new adapter: the fields of the request, the first revision, and the time
pub record Registered (now : DateTime) (body : CreateAdapterBody) (a : Adapter) : Type 0 where
  pub name : a.name ≡ body.name
  pub description : a.description ≡ body.description
  pub image : a.image.reference ≡ body.image
  pub port : a.endpoint.port ≡ body.endpoint_port
  pub path : a.endpoint.path ≡ body.endpoint_path
  pub upstream : a.upstream ≡ body.upstream
  pub replicas : a.replicas ≡ body.replicas
  pub labels : a.labels ≡ body.labels
  pub env : a.env ≡ map (λ (e : EnvVarBody). record { name = e.name; value = e.value }) body.env
  pub secret_refs :
      a.secret_refs
      ≡ map
          (λ (s : SecretRefBody). record { name = s.name; provider = s.provider; key = s.key })
          body.secret_refs
  pub required_roles : a.required_roles ≡ body.required_roles
  pub tags : a.tags ≡ body.tags
  pub resources :
      a.resources
      ≡ unwrap_or
          (record { cpu = none; memory = none })
          (Option.map
            (λ (r : ResourcesBody). record { cpu = r.cpu; memory = r.memory })
            body.resources)
  pub health :
      a.health
      ≡ Option.map (λ (h : HealthProbeBody). record { path = h.path; port = h.port }) body.health
  pub session_affinity : IsAffinityFor body.session_affinity a.session_affinity
  pub revision : a.revision ≡ some 1
  pub created_at : a.created_at ≡ some now
  pub updated_at : a.updated_at ≡ some now

pub of_body-Registered :
    (now : DateTime) (body : CreateAdapterBody) → Registered now body (adapter_of_body now body)
unfolding adapter_of_body
of_body-Registered now body = record {
  name = refl;
  description = refl;
  image = refl;
  port = refl;
  path = refl;
  upstream = refl;
  replicas = refl;
  labels = refl;
  env = refl;
  secret_refs = refl;
  required_roles = refl;
  tags = refl;
  resources = elim (Option-cases body.resources) [ inl n ↦ rw n refl | inr (r, e) ↦ rw e refl ];
  health = refl;
  session_affinity = affinity_of-IsAffinityFor body.session_affinity;
  revision = refl;
  created_at = refl;
  updated_at = refl;
}
