-- ===== src/Gateway/ControlPlane/Steps.antt =====
-- crates/gateway/src/routes/control_plane.rs: the steps that the handlers of adapters and of tools
-- have in common.
use mcp_oxide.Prelude.{
  ℕ, ◌+◌, ◌%◌, ◌^◌, String, Option, none, some, List, [], ◌∷◌, map, ◌==◌, nat_eq, if◌then◌else◌,
  option_eq, unwrap_or,
}
use mcp_oxide.Text.{trim, split}
use mcp_oxide.Core.Error.{
  Error, not_found, conflict, Result, ok, err, AppError, core, app_to_string, done, fail,
}
use mcp_oxide.Core.Identity.{UserContext}
use mcp_oxide.Core.Model.{SessionAffinity, sticky, no_affinity}
use mcp_oxide.Core.Audit.{allow, deny, AuditRecord}
use mcp_oxide.Gateway.Handler.{Host, Handler}
use mcp_oxide.Gateway.Validation.{validate_env_var_name}
use mcp_oxide.Gateway.ControlPlane.Helpers.{CpKind, CpVerb, audit_record}
use mcp_oxide.Gateway.ControlPlane.Bodies.{EnvVarBody}

-- a response with a JSON body and the headers that the handlers set
pub record Response (V A : Type 0) : Type 0 where
  pub status : ℕ
  pub location : Option V
  pub etag : Option V
  pub body : A

-- `Some("none")` is `SessionAffinity::None`, anything else is sticky
abbrev pub affinity_of : Option String → SessionAffinity
affinity_of none = sticky
affinity_of (some s) = if s == "none" then no_affinity else sticky

-- the revision after `rev`, in a `u64` that wraps around
abbrev pub next_revision : Option ℕ → ℕ
next_revision rev = (unwrap_or 0 rev + 1) % 2 ^ 64

-- the first name that `validate_env_var_name` refuses ends the loop
unfoldable pub check_env : List EnvVarBody → Result AppError Unit
check_env [] = ok tt
check_env (e ∷ env) = elim (validate_env_var_name e.name) [
  | ok _ ↦ check_env env
  | err e' ↦ err (core e')
]

abbrev pub check_env_option : Option (List EnvVarBody) → Result AppError Unit
check_env_option none = ok tt
check_env_option (some env) = check_env env

-- `AppError::Core(e)`
abbrev pub as_app : {A : Type 0} → Result Error A → Result AppError A
as_app (ok a) = ok a
as_app (err e) = err (core e)

-- the test of an expected revision, in `If-Match` or in the body
abbrev pub check_revision : Option ℕ → Option ℕ → Result AppError Unit
check_revision none actual = ok tt
check_revision (some rev) actual =
    if option_eq nat_eq (some rev) actual then ok tt else err (core (conflict "revision mismatch"))

abbrev pub found : {A : Type 0} → Error → Option A → Result Error A
found e none = err e
found e (some a) = ok a

-- a deployment that is already gone counts as deleted
abbrev pub undeployed : Result Error Unit → Result AppError Unit
undeployed (ok _) = ok tt
undeployed (err (not_found _)) = ok tt
undeployed (err e) = err (core e)

-- `parse_tags` of the `tags` query
unfoldable pub parse_tags : Option String → List String
parse_tags none = []
parse_tags (some s) = map trim (split b',' s)

-- What a handler knows when it writes an audit record: its request, and the policy that allowed
-- it once that is known.
pub record Request (V : Type 0) : Type 0 where
  pub host : Host V
  pub trace_id : String
  pub user : UserContext
  pub kind : CpKind
  pub verb : CpVerb
  pub name : String

module _ {V : Type 0} (r : Request V) (policy_id : Option String) where
  abbrev pub denial : AppError → AuditRecord
  denial e =
      audit_record r.host r.trace_id r.user r.kind r.verb r.name deny policy_id
        (some (app_to_string e))

  abbrev pub allowance : AuditRecord
  allowance = audit_record r.host r.trace_id r.user r.kind r.verb r.name allow policy_id none

module _ {V M D A : Type 0} (r : Request V) (policy_id : Option String) where
  -- `Err(e) => { emit_audit(…, Deny, …, Some(&e.to_string())); return Err(e); }`
  abbrev pub or_deny : Result AppError A → Handler M D A
  or_deny (ok a) w = (done a, w)
  or_deny (err e) w = (fail e, record w { audit = denial r policy_id e ∷ w.audit })
