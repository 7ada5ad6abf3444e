-- ===== src/Gateway/ControlPlane/Helpers.antt =====
-- crates/gateway/src/routes/control_plane_helpers.rs: authorisation, audit records, entity tags.
pub mod ETag
use mcp_oxide.Prelude.{
  ℕ, String, Bool, true, false, Option, none, some, List, [], ◌∷◌, if◌then◌else◌, unwrap_or,
}
use mcp_oxide.Text.{format, trim, trim_matches, strip_prefix, is_char}
use mcp_oxide.Text.Decimal.{to_decimal, parse_u64}
use mcp_oxide.Core.Error.{
  Error, forbidden, invalid_request, Result, ok, err, AppError, core, app_to_string,
}
use mcp_oxide.Core.Identity.{UserContext}
use mcp_oxide.Core.Policy.{
  ResourceKind, adapter_kind, tool_kind, control_plane, PolicyInput, Decision, default_env,
}
use mcp_oxide.Core.Audit.{AuditDecision, deny, AuditRecord, audit_user}
use mcp_oxide.Core.Providers.{DeploymentHandle, PolicyEngine}
use mcp_oxide.Gateway.State.{World, named_handle}
use mcp_oxide.Gateway.Handler.{Host, HeaderMap, Handler, return, raise, emit, ◌>>=◌, ◌>>◌}

pub data CpKind : Type 0 where
  adapter tool : CpKind

abbrev pub kind_str : CpKind → String
kind_str adapter = "adapter"
kind_str tool = "tool"

abbrev pub resource_kind : CpKind → ResourceKind
resource_kind adapter = adapter_kind
resource_kind tool = tool_kind

abbrev pub action_ns : CpKind → String
action_ns adapter = "adapters"
action_ns tool = "tools"

pub data CpVerb : Type 0 where
  create read list update delete : CpVerb

abbrev pub verb_str : CpVerb → String
verb_str create = "create"
verb_str read = "read"
verb_str list = "list"
verb_str update = "update"
verb_str delete = "delete"

-- the action that a policy rule names, such as `adapters.create`
unfoldable pub action_name : CpKind → CpVerb → String
action_name kind verb = format (action_ns kind ∷ "." ∷ verb_str verb ∷ [])

abbrev pub policy_input : UserContext → CpKind → CpVerb → String → List String → PolicyInput
policy_input user kind verb name tags = record {
  user = user;
  action = record { plane = control_plane; method = action_name kind verb; tool = none };
  resource = record { kind = resource_kind kind; name = name; tags = tags; required_roles = [] };
  env = default_env;
}

abbrev judged : Result Error Decision → Result AppError (Option String)
judged (err e) = err (core e)
judged (ok d) =
    if d.allow then ok d.policy_id else err (core (forbidden (unwrap_or "forbidden" d.reason)))

unfoldable pub authorize :
    PolicyEngine
    → UserContext
    → CpKind
    → CpVerb
    → String
    → List String
    → Result AppError (Option String)
authorize authz user kind verb name tags =
    judged (authz.decide (policy_input user kind verb name tags))

-- the revision in the text of an `If-Match` header
unfoldable pub if_match_revision : String → Option ℕ
if_match_revision s =
    let t = trim s in parse_u64 (trim_matches (is_char b'"') (unwrap_or t (strip_prefix "W/" t)))

abbrev revision_of : Option ℕ → Result AppError (Option ℕ)
revision_of none = err (core (invalid_request "if-match value"))
revision_of (some rev) = ok (some rev)

-- `W/"<revision>"`
unfoldable pub etag_text : ℕ → String
etag_text revision = format ("W/\"" ∷ to_decimal revision ∷ "\"" ∷ [])

module _ {V : Type 0} (host : Host V) where
  abbrev pub audit_record :
      String
      → UserContext
      → CpKind
      → CpVerb
      → String
      → AuditDecision
      → Option String
      → Option String
      → AuditRecord
  audit_record trace_id user kind verb name decision policy_id error = record {
    ts = host.timestamp;
    trace_id = trace_id;
    user = audit_user user;
    plane = control_plane;
    action = action_name kind verb;
    target = record { kind = kind_str kind; name = name };
    decision = decision;
    policy_id = policy_id;
    latency_ms = 0;
    upstream_status = "";
    request_hash = "";
    error = error;
  }

  -- the header's text, or a fresh id where it is absent or no text
  abbrev trace_id_of : Option V → String
  trace_id_of none = host.new_uuid
  trace_id_of (some v) = unwrap_or host.new_uuid (host.to_str v)

  unfoldable pub extract_trace_id : HeaderMap V → String
  extract_trace_id headers = trace_id_of headers.x_request_id

  abbrev if_match_of : Option String → Result AppError (Option ℕ)
  if_match_of none = err (core (invalid_request "if-match"))
  if_match_of (some s) = revision_of (if_match_revision s)

  abbrev parsed_if_match : Option V → Result AppError (Option ℕ)
  parsed_if_match none = ok none
  parsed_if_match (some v) = if_match_of (host.to_str v)

  unfoldable pub parse_if_match : HeaderMap V → Result AppError (Option ℕ)
  parse_if_match headers = parsed_if_match headers.if_match

  -- `None` is the panic of `expect("valid etag")`
  unfoldable pub etag_for : ℕ → Option V
  etag_for revision = host.from_str (etag_text revision)

  abbrev location_of : Option V → Result AppError V
  location_of none =
      err (core (invalid_request "name contains characters invalid in Location header"))
  location_of (some v) = ok v

  unfoldable pub location_for : CpKind → String → Result AppError V
  location_for kind name =
      location_of (host.from_str (format ("/" ∷ kind_str kind ∷ "s/" ∷ name ∷ [])))

abbrev pub handle_for : String → DeploymentHandle
handle_for = named_handle
