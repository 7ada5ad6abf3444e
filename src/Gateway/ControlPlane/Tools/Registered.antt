-- ===== src/Gateway/ControlPlane/Tools/Registered.antt =====
-- What `create_tool` stores, field by field.
use mathlib.Core.Option
use mcp_oxide.Prelude.{none, some, ◌≡◌, inl, inr, map, refl, Option-cases, unwrap_or}
use mcp_oxide.Gateway.ControlPlane.Bodies.{CreateToolBody, EnvVarBody, SecretRefBody, ResourcesBody}
use mcp_oxide.Gateway.ControlPlane.Tools.{tool_of_body}
use mcp_oxide.Core.Model.{DateTime, Tool}

-- what is registered of a new tool: the fields of the request, the first revision, and the time
pub record Registered (now : DateTime) (body : CreateToolBody) (a : Tool) : Type 0 where
  pub name : a.name ≡ body.name
  pub description : a.description ≡ body.description
  pub image : a.image.reference ≡ body.image
  pub port : a.endpoint.port ≡ body.endpoint_port
  pub path : a.endpoint.path ≡ body.endpoint_path
  pub env : a.env ≡ map (λ (e : EnvVarBody). record { name = e.name; value = e.value }) body.env
  pub secret_refs :
      a.secret_refs
      ≡ map
          (λ (s : SecretRefBody). record { name = s.name; provider = s.provider; key = s.key })
          body.secret_refs
  pub required_roles : a.required_roles ≡ body.required_roles
  pub tags : a.tags ≡ body.tags
  pub resources :
      a.resources
      ≡ unwrap_or
          (record { cpu = none; memory = none })
          (Option.map
            (λ (r : ResourcesBody). record { cpu = r.cpu; memory = r.memory })
            body.resources)
  pub tool_definition : a.tool_definition ≡ record {
    name = body.tool_definition.name;
    title = body.tool_definition.title;
    description = body.tool_definition.description;
    input_schema = body.tool_definition.input_schema;
    annotations = body.tool_definition.annotations;
  }
  pub revision : a.revision ≡ some 1
  pub created_at : a.created_at ≡ some now
  pub updated_at : a.updated_at ≡ some now

pub of_body-Registered :
    (now : DateTime) (body : CreateToolBody) → Registered now body (tool_of_body now body)
unfolding tool_of_body
of_body-Registered now body = record {
  name = refl;
  description = refl;
  image = refl;
  port = refl;
  path = refl;
  env = refl;
  secret_refs = refl;
  required_roles = refl;
  tags = refl;
  resources = elim (Option-cases body.resources) [ inl n ↦ rw n refl | inr (r, e) ↦ rw e refl ];
  tool_definition = refl;
  revision = refl;
  created_at = refl;
  updated_at = refl;
}
