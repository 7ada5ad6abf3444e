-- ===== src/Gateway/ControlPlane/Tools/Revised.antt =====
-- What `update_tool` stores, field by field.
use mathlib.Core.Option
use mcp_oxide.Prelude.{
  some, ◌≡◌, arith, or_else, inl, inr, ◌+◌, ◌%◌, ◌^◌, map, unwrap_or, refl, Option-cases,
}
use mcp_oxide.Core.Model.{Tool, DateTime}
use mcp_oxide.Gateway.ControlPlane.Bodies.{
  UpdateToolBody, EnvVarBody, SecretRefBody, ResourcesBody, ToolDefinitionBody,
}
use mcp_oxide.Gateway.ControlPlane.Tools.{changed_tool, bumped_tool}

-- What an update makes of the record `prev`: the fields that the request gives are set, the others
-- kept, the revision is the next one, in a `u64` that wraps around, and the time is noted.
pub record Revised (now : DateTime) (body : UpdateToolBody) (prev a : Tool) : Type 0 where
  pub name : a.name ≡ prev.name
  pub revision : a.revision ≡ some ((unwrap_or 0 prev.revision + 1) % 2 ^ 64)
  pub created_at : a.created_at ≡ prev.created_at
  pub updated_at : a.updated_at ≡ some now
  pub description : a.description ≡ or_else body.description prev.description
  pub image : a.image.reference ≡ unwrap_or prev.image.reference body.image
  pub port : a.endpoint.port ≡ unwrap_or prev.endpoint.port body.endpoint_port
  pub path : a.endpoint.path ≡ unwrap_or prev.endpoint.path body.endpoint_path
  pub required_roles : a.required_roles ≡ unwrap_or prev.required_roles body.required_roles
  pub tags : a.tags ≡ unwrap_or prev.tags body.tags
  pub resources :
      a.resources
      ≡ unwrap_or prev.resources (
          Option.map
            (λ (r : ResourcesBody). record { cpu = r.cpu; memory = r.memory })
            body.resources)
  pub tool_definition :
      a.tool_definition
      ≡ unwrap_or prev.tool_definition (
          Option.map
            (λ (d : ToolDefinitionBody). record {
              name = d.name;
              title = d.title;
              description = d.description;
              input_schema = d.input_schema;
              annotations = d.annotations;
            })
            body.tool_definition)
  pub env :
      a.env
      ≡ unwrap_or prev.env (
          Option.map (map (λ (e : EnvVarBody). record { name = e.name; value = e.value })) body.env)
  pub secret_refs :
      a.secret_refs
      ≡ unwrap_or prev.secret_refs (
          Option.map
            (map
              (λ (s : SecretRefBody). record { name = s.name; provider = s.provider; key = s.key }))
            body.secret_refs)

pub updated-Revised :
    (now : DateTime) (body : UpdateToolBody) (prev : Tool)
    → Revised now body prev (bumped_tool now (changed_tool body prev))
unfolding bumped_tool changed_tool
updated-Revised now body prev = record {
  name = refl;
  revision = refl;
  created_at = refl;
  updated_at = refl;
  description = refl;
  image = ground arith;
  port = refl;
  path = refl;
  required_roles = refl;
  tags = refl;
  resources = elim (Option-cases body.resources) [ inl n ↦ rw n refl | inr (r, e) ↦ rw e refl ];
  tool_definition = elim (Option-cases body.tool_definition) [
    | inl n ↦ rw n refl
    | inr (r, e) ↦ rw e refl
  ];
  env = ground arith;
  secret_refs = ground arith;
}
