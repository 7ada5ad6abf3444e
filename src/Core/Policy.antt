-- ===== src/Core/Policy.antt =====
-- crates/core/src/policy.rs: the question put to a policy engine, and its decision.
use mcp_oxide.Prelude.{String, Bool, true, false, Option, none, some, List}
use mcp_oxide.Core.Identity.{UserContext}

-- `Plane::Control` and `Plane::Data`
pub data Plane : Type 0 where
  control_plane data_plane : Plane

pub record Action : Type 0 where
  pub plane : Plane
  pub method : String
  pub tool : Option String

pub data ResourceKind : Type 0 where
  adapter_kind tool_kind gateway_kind : ResourceKind

pub record Resource : Type 0 where
  pub kind : ResourceKind
  pub name : String
  pub tags : List String
  pub required_roles : List String

-- `Env`; the handlers pass `Env::default()`
pub record Env : Type 0 where
  pub ip : Option String
  pub region : Option String

abbrev pub default_env : Env
default_env = record { ip = none; region = none }

pub record PolicyInput : Type 0 where
  pub user : UserContext
  pub action : Action
  pub resource : Resource
  pub env : Env

pub record Decision : Type 0 where
  pub allow : Bool
  pub reason : Option String
  pub policy_id : Option String

-- `Decision::allow` and `Decision::deny`
abbrev pub allow_decision : Decision
allow_decision = record { allow = true; reason = none; policy_id = none }

abbrev pub deny_decision : String → Decision
deny_decision reason = record { allow = false; reason = some reason; policy_id = none }
