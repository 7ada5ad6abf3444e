-- ===== src/Gateway/ControlPlane/Adapters/Revised.antt =====
-- What `update_adapter` stores, field by field.
use mathlib.Core.Option
use mcp_oxide.Prelude.{
  some, ◌≡◌, arith, or_else, inl, inr, ◌+◌, ◌%◌, ◌^◌, none, map, unwrap_or, refl, ◌⊎◌, ◌≢◌,
  Option-cases,
}
use mcp_oxide.Core.Model.{Adapter, DateTime}
use mcp_oxide.Gateway.ControlPlane.Bodies.{
  UpdateAdapterBody, EnvVarBody, SecretRefBody, ResourcesBody, HealthProbeBody,
}
use mcp_oxide.Gateway.ControlPlane.Adapters.{changed_adapter, bumped_adapter}
use mcp_oxide.Gateway.ControlPlane.Guarantees.{IsAffinityFor, affinity_of-IsAffinityFor}

-- What an update makes of the record `prev`: the fields that the request gives are set, the others
-- kept, the revision is the next one, in a `u64` that wraps around, and the time is noted.
pub record Revised (now : DateTime) (body : UpdateAdapterBody) (prev a : Adapter) : Type 0 where
  pub name : a.name ≡ prev.name
  pub revision : a.revision ≡ some ((unwrap_or 0 prev.revision + 1) % 2 ^ 64)
  pub created_at : a.created_at ≡ prev.created_at
  pub updated_at : a.updated_at ≡ some now
  pub description : a.description ≡ or_else body.description prev.description
  pub image : a.image.reference ≡ unwrap_or prev.image.reference body.image
  pub port : a.endpoint.port ≡ unwrap_or prev.endpoint.port body.endpoint_port
  pub path : a.endpoint.path ≡ unwrap_or prev.endpoint.path body.endpoint_path
  pub upstream : a.upstream ≡ or_else body.upstream prev.upstream
  pub replicas : a.replicas ≡ unwrap_or prev.replicas body.replicas
  pub labels : a.labels ≡ unwrap_or prev.labels body.labels
  pub required_roles : a.required_roles ≡ unwrap_or prev.required_roles body.required_roles
  pub tags : a.tags ≡ unwrap_or prev.tags body.tags
  pub resources :
      a.resources
      ≡ unwrap_or prev.resources (
          Option.map
            (λ (r : ResourcesBody). record { cpu = r.cpu; memory = r.memory })
            body.resources)
  pub health :
      a.health
      ≡ or_else
          (Option.map
            (λ (h : HealthProbeBody). record { path = h.path; port = h.port })
            body.health)
          prev.health
  pub session_affinity :
      ((body.session_affinity ≡ none) × (a.session_affinity ≡ prev.session_affinity))
      ⊎ ((body.session_affinity ≢ none) × IsAffinityFor body.session_affinity a.session_affinity)
  pub env :
      a.env
      ≡ unwrap_or prev.env (
          Option.map (map (λ (e : EnvVarBody). record { name = e.name; value = e.value })) body.env)
  pub secret_refs :
      a.secret_refs
      ≡ unwrap_or prev.secret_refs (
          Option.map
            (map
              (λ (s : SecretRefBody). record { name = s.name; provider = s.provider; key = s.key }))
            body.secret_refs)

pub updated-Revised :
    (now : DateTime) (body : UpdateAdapterBody) (prev : Adapter)
    → Revised now body prev (bumped_adapter now (changed_adapter body prev))
unfolding bumped_adapter changed_adapter
updated-Revised now body prev = record {
  name = refl;
  revision = refl;
  created_at = refl;
  updated_at = refl;
  description = refl;
  image = ground arith;
  port = refl;
  path = refl;
  upstream = refl;
  replicas = refl;
  labels = refl;
  required_roles = refl;
  tags = refl;
  resources = elim (Option-cases body.resources) [ inl n ↦ rw n refl | inr (r, e) ↦ rw e refl ];
  health = elim (Option-cases body.health) [ inl n ↦ rw n refl | inr (r, e) ↦ rw e refl ];
  session_affinity = elim (Option-cases body.session_affinity) [
    | inl n ↦ inl (n, rw n refl)
    | inr (s, e) ↦ inr (λ n. cc, rw e (affinity_of-IsAffinityFor (some s)))
  ];
  env = ground arith;
  secret_refs = ground arith;
}
