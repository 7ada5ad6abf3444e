-- ===== src/Core/Audit.antt =====
-- crates/core/src/audit.rs: the audit record.
use mcp_oxide.Prelude.{ℕ, String, Option, List}
use mcp_oxide.Core.Identity.{UserContext}
use mcp_oxide.Core.Policy.{Plane}

pub data AuditDecision : Type 0 where
  allow deny : AuditDecision

pub record AuditUser : Type 0 where
  pub sub : String
  pub tenant : Option String
  pub roles : List String

-- `AuditUser::from`
abbrev pub audit_user : UserContext → AuditUser
audit_user u = record { sub = u.sub; tenant = u.tenant; roles = u.roles }

pub record AuditTarget : Type 0 where
  pub kind : String
  pub name : String

pub record AuditRecord : Type 0 where
  pub ts : String
  pub trace_id : String
  pub user : AuditUser
  pub plane : Plane
  pub action : String
  pub target : AuditTarget
  pub decision : AuditDecision
  pub policy_id : Option String
  pub latency_ms : ℕ
  pub upstream_status : String
  pub request_hash : String
  pub error : Option String
