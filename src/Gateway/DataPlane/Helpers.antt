-- ===== src/Gateway/DataPlane/Helpers.antt =====
-- crates/gateway/src/routes/data_plane_helpers.rs: authorisation and audit records of the data
-- plane.
pub mod Access
use mcp_oxide.Prelude.{
  ℕ, String, Bool, true, false, Option, none, some, List, [], ◌∷◌, any, ◌==◌, unwrap_or,
  if◌then◌else◌,
}
use mcp_oxide.Core.Error.{Error, to_string, Result, ok, err}
use mcp_oxide.Core.Identity.{UserContext}
use mcp_oxide.Core.Policy.{ResourceKind, data_plane, PolicyInput, Decision, default_env}
use mcp_oxide.Core.Audit.{AuditDecision, AuditRecord, audit_user}
use mcp_oxide.Core.Providers.{PolicyEngine}
use mcp_oxide.Gateway.Handler.{Host}

pub record DataPlaneAuthz : Type 0 where
  pub policy_id : Option String

-- an empty list of roles asks for nothing
unfoldable pub required_roles_satisfied : List String → List String → Bool
required_roles_satisfied required user_roles = elim required [
  | [] ↦ true
  | ◌∷◌ r rs ↦ any (λ q. any (λ u. u == q) user_roles) (r ∷ rs)
]

abbrev pub data_input :
    UserContext
    → String
    → Option String
    → ResourceKind
    → String
    → List String
    → List String
    → PolicyInput
data_input user method tool kind name tags required_roles = record {
  user = user;
  action = record { plane = data_plane; method = method; tool = tool };
  resource = record { kind = kind; name = name; tags = tags; required_roles = required_roles };
  env = default_env;
}

-- what follows the policy engine's answer
unfoldable pub data_judged :
    Result Error Decision → List String → List String → Result String DataPlaneAuthz
data_judged (err e) required user_roles = err (to_string e)
data_judged (ok d) required user_roles =
    if d.allow
    then if required_roles_satisfied required user_roles
      then ok (record { policy_id = d.policy_id })
      else err "required_roles"
    else err (unwrap_or "forbidden" d.reason)

unfoldable pub authorize_data_plane :
    PolicyEngine
    → UserContext
    → String
    → Option String
    → ResourceKind
    → String
    → List String
    → List String
    → Result String DataPlaneAuthz
authorize_data_plane authz user method tool kind name tags required_roles =
    data_judged (authz.decide (data_input user method tool kind name tags required_roles))
      required_roles user.roles

abbrev pub data_audit_record :
    {V : Type 0}
    → Host V
    → String
    → UserContext
    → String
    → String
    → String
    → AuditDecision
    → Option String
    → ℕ
    → String
    → String
    → Option String
    → AuditRecord
data_audit_record host trace_id user action kind name decision policy_id latency_ms upstream_status
      request_hash error =
    record {
      ts = host.timestamp;
      trace_id = trace_id;
      user = audit_user user;
      plane = data_plane;
      action = action;
      target = record { kind = kind; name = name };
      decision = decision;
      policy_id = policy_id;
      latency_ms = latency_ms;
      upstream_status = upstream_status;
      request_hash = request_hash;
      error = error;
    }
