-- ===== src/Core/Model.antt =====
-- crates/core/src/adapter.rs, crates/core/src/tool.rs and crates/core/src/session.rs: what is
-- registered. A `u16`, `u32` or `u64` is a number; a `BTreeMap` of labels is the list of its
-- entries; a timestamp is the number of nanoseconds since the epoch.
pub mod Equality
use mcp_oxide.Prelude.{ℕ, String, Bool, ◌&&◌, Option, List, ◌==◌, option_eq}
use mcp_oxide.Core.Json.{Json}

abbrev pub DateTime : Type 0
DateTime = ℕ

pub record ImageRef : Type 0 where
  pub reference : String

pub record Endpoint : Type 0 where
  pub port : ℕ
  pub path : String

pub record EnvVar : Type 0 where
  pub name : String
  pub value : String

pub record SecretRef : Type 0 where
  pub name : String
  pub provider : String
  pub key : String

pub record Resources : Type 0 where
  pub cpu : Option String
  pub memory : Option String

pub record HealthProbe : Type 0 where
  pub path : String
  pub port : ℕ

pub data SessionAffinity : Type 0 where
  sticky no_affinity : SessionAffinity

pub record Adapter : Type 0 where
  pub name : String
  pub description : Option String
  pub image : ImageRef
  pub endpoint : Endpoint
  pub upstream : Option String
  pub replicas : ℕ
  pub env : List EnvVar
  pub secret_refs : List SecretRef
  pub required_roles : List String
  pub tags : List String
  pub resources : Resources
  pub health : Option HealthProbe
  pub session_affinity : SessionAffinity
  pub labels : List (String × String)
  pub revision : Option ℕ
  pub created_at : Option DateTime
  pub updated_at : Option DateTime

pub record ToolDefinition : Type 0 where
  pub name : String
  pub title : Option String
  pub description : Option String
  pub input_schema : Json
  pub annotations : Option Json

pub record Tool : Type 0 where
  pub name : String
  pub description : Option String
  pub image : ImageRef
  pub endpoint : Endpoint
  pub tool_definition : ToolDefinition
  pub env : List EnvVar
  pub secret_refs : List SecretRef
  pub required_roles : List String
  pub tags : List String
  pub resources : Resources
  pub revision : Option ℕ
  pub created_at : Option DateTime
  pub updated_at : Option DateTime

-- the derived `PartialEq` of the parts that an update compares
abbrev pub env_var_eq : EnvVar → EnvVar → Bool
env_var_eq a b = a.name == b.name && a.value == b.value

abbrev pub secret_ref_eq : SecretRef → SecretRef → Bool
secret_ref_eq a b = a.name == b.name && a.provider == b.provider && a.key == b.key

abbrev pub resources_eq : Resources → Resources → Bool
resources_eq a b = option_eq ◌==◌ a.cpu b.cpu && option_eq ◌==◌ a.memory b.memory

-- crates/core/src/session.rs
pub record SessionId : Type 0 where
  pub session : String

pub record BackendId : Type 0 where
  pub backend : String
