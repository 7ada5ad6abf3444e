-- ===== src/Gateway/ControlPlane/Bodies.antt =====
-- crates/gateway/src/routes/control_plane.rs: the request bodies and the responses. A body is what
-- `serde` made of the JSON, its defaults filled in.
use mcp_oxide.Prelude.{ℕ, String, Option, none, some, List, map, or_else, unwrap_or}
use mathlib.Core.Option
use mcp_oxide.Core.Json.{Json}
use mcp_oxide.Core.Model.{
  EnvVar, SecretRef, Resources, HealthProbe, SessionAffinity, sticky, no_affinity, Adapter,
  ToolDefinition, Tool,
}
use mcp_oxide.Gateway.Handler.{Host}

pub record EnvVarBody : Type 0 where
  pub name : String
  pub value : String

pub record SecretRefBody : Type 0 where
  pub name : String
  pub provider : String
  pub key : String

pub record ResourcesBody : Type 0 where
  pub cpu : Option String
  pub memory : Option String

pub record HealthProbeBody : Type 0 where
  pub path : String
  pub port : ℕ

pub record CreateAdapterBody : Type 0 where
  pub name : String
  pub description : Option String
  pub image : String
  pub endpoint_port : ℕ
  pub endpoint_path : String
  pub upstream : Option String
  pub replicas : ℕ
  pub env : List EnvVarBody
  pub secret_refs : List SecretRefBody
  pub required_roles : List String
  pub tags : List String
  pub resources : Option ResourcesBody
  pub health : Option HealthProbeBody
  pub session_affinity : Option String
  pub labels : List (String × String)

pub record UpdateAdapterBody : Type 0 where
  pub description : Option String
  pub image : Option String
  pub endpoint_port : Option ℕ
  pub endpoint_path : Option String
  pub upstream : Option String
  pub replicas : Option ℕ
  pub env : Option (List EnvVarBody)
  pub secret_refs : Option (List SecretRefBody)
  pub required_roles : Option (List String)
  pub tags : Option (List String)
  pub resources : Option ResourcesBody
  pub health : Option HealthProbeBody
  pub session_affinity : Option String
  pub labels : Option (List (String × String))
  pub revision : Option ℕ

pub record ToolDefinitionBody : Type 0 where
  pub name : String
  pub title : Option String
  pub description : Option String
  pub input_schema : Json
  pub annotations : Option Json

pub record CreateToolBody : Type 0 where
  pub name : String
  pub description : Option String
  pub image : String
  pub endpoint_port : ℕ
  pub endpoint_path : String
  pub tool_definition : ToolDefinitionBody
  pub env : List EnvVarBody
  pub secret_refs : List SecretRefBody
  pub required_roles : List String
  pub tags : List String
  pub resources : Option ResourcesBody

pub record UpdateToolBody : Type 0 where
  pub description : Option String
  pub image : Option String
  pub endpoint_port : Option ℕ
  pub endpoint_path : Option String
  pub tool_definition : Option ToolDefinitionBody
  pub env : Option (List EnvVarBody)
  pub secret_refs : Option (List SecretRefBody)
  pub required_roles : Option (List String)
  pub tags : Option (List String)
  pub resources : Option ResourcesBody
  pub revision : Option ℕ

pub record AdapterResponse : Type 0 where
  pub name : String
  pub description : Option String
  pub image : String
  pub endpoint_port : ℕ
  pub endpoint_path : String
  pub upstream : Option String
  pub replicas : ℕ
  pub env : List EnvVarBody
  pub secret_refs : List SecretRefBody
  pub required_roles : List String
  pub tags : List String
  pub resources : Option ResourcesBody
  pub health : Option HealthProbeBody
  pub session_affinity : String
  pub labels : List (String × String)
  pub revision : ℕ
  pub created_at : Option String
  pub updated_at : Option String

pub record ToolResponse : Type 0 where
  pub name : String
  pub description : Option String
  pub image : String
  pub endpoint_port : ℕ
  pub endpoint_path : String
  pub tool_definition : ToolDefinitionBody
  pub env : List EnvVarBody
  pub secret_refs : List SecretRefBody
  pub required_roles : List String
  pub tags : List String
  pub resources : Option ResourcesBody
  pub revision : ℕ
  pub created_at : Option String
  pub updated_at : Option String

-- The conversions that the handlers write out field by field. The response's parts have the
-- fields of the body's, so one type serves for both.
abbrev pub env_var : EnvVarBody → EnvVar
env_var e = record { name = e.name; value = e.value }

abbrev pub env_var_body : EnvVar → EnvVarBody
env_var_body e = record { name = e.name; value = e.value }

abbrev pub secret_ref : SecretRefBody → SecretRef
secret_ref s = record { name = s.name; provider = s.provider; key = s.key }

abbrev pub secret_ref_body : SecretRef → SecretRefBody
secret_ref_body s = record { name = s.name; provider = s.provider; key = s.key }

abbrev pub resources_of : ResourcesBody → Resources
resources_of r = record { cpu = r.cpu; memory = r.memory }

-- `body.resources.as_ref().and_then(…)`, field by field
abbrev pub resources_or_none : Option ResourcesBody → Resources
resources_or_none none = record { cpu = none; memory = none }
resources_or_none (some r) = resources_of r

-- shown only if a limit is set
abbrev pub resources_body : Resources → Option ResourcesBody
resources_body r = elim (or_else r.cpu r.memory) [
  | none ↦ none
  | some _ ↦ some (record { cpu = r.cpu; memory = r.memory })
]

abbrev pub health_probe : HealthProbeBody → HealthProbe
health_probe h = record { path = h.path; port = h.port }

abbrev pub health_probe_body : HealthProbe → HealthProbeBody
health_probe_body h = record { path = h.path; port = h.port }

abbrev pub affinity_str : SessionAffinity → String
affinity_str sticky = "sticky"
affinity_str no_affinity = "none"

abbrev pub tool_definition_of : ToolDefinitionBody → ToolDefinition
tool_definition_of d = record {
  name = d.name;
  title = d.title;
  description = d.description;
  input_schema = d.input_schema;
  annotations = d.annotations;
}

abbrev pub tool_definition_body : ToolDefinition → ToolDefinitionBody
tool_definition_body d = record {
  name = d.name;
  title = d.title;
  description = d.description;
  input_schema = d.input_schema;
  annotations = d.annotations;
}

module _ {V : Type 0} (host : Host V) where
  -- `AdapterResponse::from`
  unfoldable pub adapter_response : Adapter → AdapterResponse
  adapter_response a = record {
    name = a.name;
    description = a.description;
    image = a.image.reference;
    endpoint_port = a.endpoint.port;
    endpoint_path = a.endpoint.path;
    upstream = a.upstream;
    replicas = a.replicas;
    env = map env_var_body a.env;
    secret_refs = map secret_ref_body a.secret_refs;
    required_roles = a.required_roles;
    tags = a.tags;
    resources = resources_body a.resources;
    health = Option.map health_probe_body a.health;
    session_affinity = affinity_str a.session_affinity;
    labels = a.labels;
    revision = unwrap_or 0 a.revision;
    created_at = Option.map host.to_rfc3339 a.created_at;
    updated_at = Option.map host.to_rfc3339 a.updated_at;
  }

  -- `ToolResponse::from`
  unfoldable pub tool_response : Tool → ToolResponse
  tool_response t = record {
    name = t.name;
    description = t.description;
    image = t.image.reference;
    endpoint_port = t.endpoint.port;
    endpoint_path = t.endpoint.path;
    tool_definition = tool_definition_body t.tool_definition;
    env = map env_var_body t.env;
    secret_refs = map secret_ref_body t.secret_refs;
    required_roles = t.required_roles;
    tags = t.tags;
    resources = resources_body t.resources;
    revision = unwrap_or 0 t.revision;
    created_at = Option.map host.to_rfc3339 t.created_at;
    updated_at = Option.map host.to_rfc3339 t.updated_at;
  }
