-- ===== src/Gateway/DataPlane/Invoke.antt =====
-- crates/gateway/src/routes/data_plane.rs: `POST /adapters/{name}/mcp`. The handler never ends in
-- an error: every branch returns a response.
pub mod Guard
use mcp_oxide.Prelude.{
  ℕ, ◌%◌, ◌^◌, String, Bool, true, false, Option, none, some, List, [], ◌∷◌, leb, ◌&&◌, unwrap_or,
  if◌then◌else◌,
}
use mcp_oxide.Text.{format}
use mcp_oxide.Core.Error.{Error, to_string, Result, ok, err}
use mcp_oxide.Core.Json.{Json, as_str}
use mcp_oxide.Core.Json
use mcp_oxide.Core.Identity.{UserContext}
use mcp_oxide.Core.Policy.{adapter_kind, Decision}
use mcp_oxide.Core.Audit.{AuditDecision, allow, deny, AuditRecord}
use mcp_oxide.Gateway.State.{AppState, World, ResolvedAdapter, resolve_adapter}
use mcp_oxide.Gateway.Handler.{Host, Handler, return, reads, emit, ◌>>=◌, ◌>>◌}
use mcp_oxide.Gateway.DataPlane.Helpers.{required_roles_satisfied, data_input, data_audit_record}
use mcp_oxide.Gateway.DataPlane.Proxy.{
  Wire, ProxyError, unavailable, timeout, ProxyOutcome, ProxyResponse, forwardable_headers,
  forward_post,
}

-- a response: an error with its `error` and `message`, or the upstream's
pub data DataReply (V B : Type 0) : Type 0 where
  refused : (status : ℕ) (error message : String) → DataReply V B
  passed_on : ProxyResponse V B → DataReply V B

-- the methods of `StatusCode`
abbrev pub is_success : ℕ → Bool
is_success status = leb 200 status && leb status 299

abbrev pub is_server_error : ℕ → Bool
is_server_error status = leb 500 status && leb status 599

abbrev pub status_label : ProxyOutcome → String
status_label outcome =
    if is_success outcome.status
    then "ok"
    else if is_server_error outcome.status
    then "upstream_error"
    else "upstream_client_error"

abbrev method_text : Option Json → Option String
method_text none = none
method_text (some v) = as_str v

abbrev method_in : Option Json → Option String
method_in none = none
method_in (some v) = method_text (Json.get "method" v)

-- `parse_jsonrpc_method`, after serde read the body
unfoldable pub parse_jsonrpc_method : {B : Type 0} → (B → Option Json) → B → Option String
parse_jsonrpc_method from_slice body = method_in (from_slice body)

-- `as_millis() as u64`
abbrev pub millis : ProxyOutcome → ℕ
millis outcome = outcome.latency_ms % 2 ^ 64

module _ {V M D B : Type 0} (host : Host V) (wire : Wire V B) (from_slice : B → Option Json)
    (state : AppState M D) (user : UserContext) (trace_id : String) (headers : List (String × V))
    (body : B) where
  abbrev pub method_of_body : String
  method_of_body = unwrap_or "unknown" (parse_jsonrpc_method from_slice body)

  -- the audit record of a refusal, whose `request_hash` is empty
  abbrev pub refusal_audit : String → String → Option String → String → String → AuditRecord
  refusal_audit action name policy_id status error =
      data_audit_record host trace_id user action "adapter" name deny policy_id 0 status ""
        (some error)

  abbrev pub forward_audit : ResolvedAdapter → Decision → ℕ → String → Option String → AuditRecord
  forward_audit a d latency_ms status error =
      data_audit_record host trace_id user method_of_body "adapter" a.name allow d.policy_id
        latency_ms status (format ("sha256:" ∷ wire.sha256_hex body ∷ [])) error

  -- the response and the audit record that the forwarding leads to
  abbrev after_forward :
      ResolvedAdapter
      → Decision
      → Result ProxyError (ProxyResponse V B × ProxyOutcome)
      → Handler M D (DataReply V B)
  after_forward a d (ok (response, outcome)) = do
    emit (forward_audit a d (millis outcome) (status_label outcome) none)
    return (passed_on response)
  after_forward a d (err (timeout m)) = do
    emit (forward_audit a d 0 "upstream_timeout" (some m))
    return (refused 504 "upstream_timeout" m)
  after_forward a d (err (unavailable m)) = do
    emit (forward_audit a d 0 "upstream_unavailable" (some m))
    return (refused 502 "upstream_unavailable" m)

  -- `emit_audit(…)` and the response that is returned after it
  abbrev refuse : AuditRecord → ℕ → String → String → Handler M D (DataReply V B)
  refuse r status error message = do emit r; return (refused status error message)

  -- what follows the policy engine's answer
  unfoldable pub decided : ResolvedAdapter → Result Error Decision → Handler M D (DataReply V B)
  unfolding ◌>>=◌ ◌>>◌
  decided a (err e) =
      refuse (refusal_audit method_of_body a.name none "policy_error" (to_string e)) 500
        "internal_error" "policy"
  decided a (ok d) =
      if d.allow
      then if required_roles_satisfied a.required_roles user.roles
        then after_forward a d (forward_post wire a.upstream (forwardable_headers headers) body)
        else refuse (refusal_audit method_of_body a.name d.policy_id "forbidden" "required_roles")
            403 "forbidden" "required_roles"
      else refuse
          (refusal_audit method_of_body a.name d.policy_id "forbidden" (unwrap_or "" d.reason)) 403
          "forbidden" (unwrap_or "" d.reason)

  -- what follows the lookup of the adapter
  unfoldable pub found_adapter :
      String → Result Error (Option ResolvedAdapter) → Handler M D (DataReply V B)
  found_adapter name (err e) = return (refused 500 "internal_error" "metadata")
  found_adapter name (ok none) =
      refuse (refusal_audit "mcp.invoke" name none "not_found" "adapter not found") 404 "not_found"
        "adapter not found"
  found_adapter name (ok (some a)) = decided a (
      state.authz.decide
        (data_input user method_of_body none adapter_kind a.name a.tags a.required_roles))

  unfoldable pub invoke : String → Handler M D (DataReply V B)
  invoke name = do answer ← reads (λ w. resolve_adapter state w name); found_adapter name answer
