-- ===== src/Core/Providers.antt =====
-- crates/core/src/providers.rs: the provider traits, each a record of operations over the state
-- that the provider keeps. An operation that writes returns the new state beside its result.
pub mod Laws
use mcp_oxide.Prelude.{ℕ, String, Bool, Option, List}
use mcp_oxide.Core.Error.{Error, Result}
use mcp_oxide.Core.Identity.{UserContext}
use mcp_oxide.Core.Policy.{PolicyInput, Decision}
use mcp_oxide.Core.Model.{Adapter, Tool, SessionId, BackendId}

pub record IdProvider : Type 0 where
  pub validate : String → Result Error UserContext

pub record PolicyEngine : Type 0 where
  pub decide : PolicyInput → Result Error Decision

pub data DeploymentKind : Type 0 where
  adapter_deployment tool_deployment : DeploymentKind

pub record DeploymentSpec : Type 0 where
  pub name : String
  pub kind : DeploymentKind
  pub adapter : Option Adapter
  pub tool : Option Tool

pub record DeploymentHandle : Type 0 where
  pub id : String
  pub namespace : Option String
  pub endpoint_url : Option String

pub record DeploymentStatus : Type 0 where
  pub ready : Bool
  pub replicas : ℕ
  pub ready_replicas : ℕ
  pub message : Option String

pub record LogLine : Type 0 where
  pub ts : String
  pub line : String

pub record BackendEndpoint : Type 0 where
  pub url : String
  pub backend_id : BackendId

-- `D` is the state of the runtime that the provider drives
pub record DeploymentProvider (D : Type 0) : Type 0 where
  pub apply : DeploymentSpec → D → Result Error DeploymentHandle × D
  pub delete : DeploymentHandle → D → Result Error (Unit {0}) × D
  pub status : DeploymentHandle → D → Result Error DeploymentStatus
  pub endpoints : DeploymentHandle → D → Result Error (List BackendEndpoint)

pub record Filter : Type 0 where
  pub tenant : Option String
  pub tags : List String

-- `M` is the content of the store
pub record MetadataStore (M : Type 0) : Type 0 where
  pub put_adapter : Adapter → M → Result Error (Unit {0}) × M
  pub get_adapter : String → M → Result Error (Option Adapter)
  pub list_adapters : Filter → M → Result Error (List Adapter)
  pub delete_adapter : String → M → Result Error (Unit {0}) × M
  pub put_tool : Tool → M → Result Error (Unit {0}) × M
  pub get_tool : String → M → Result Error (Option Tool)
  pub list_tools : Filter → M → Result Error (List Tool)
  pub delete_tool : String → M → Result Error (Unit {0}) × M

pub record SecretLookup : Type 0 where
  pub provider : String
  pub key : String

-- the bytes of a secret, as the text that they encode
pub record SecretProvider : Type 0 where
  pub get : SecretLookup → Result Error String

-- `S` is the content of the session store; `now` is the instant that the clock gives
pub record SessionStore (S : Type 0) : Type 0 where
  pub resolve : SessionId → String → (now : ℕ) → S → Result Error (Option BackendId)
  pub bind : SessionId → String → BackendId → (ttl now : ℕ) → S → Result Error (Unit {0}) × S
  pub drop_session : SessionId → S → Result Error (Unit {0}) × S
