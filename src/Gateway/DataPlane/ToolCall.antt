-- ===== src/Gateway/DataPlane/ToolCall.antt =====
-- crates/gateway/src/routes/tool_router.rs: `tools/call`, which forwards a call to a tool's backend,
-- and the JSON-RPC codes of its errors.
pub mod Guard
use mcp_oxide.Prelude.{
  ℕ, String, Bool, true, false, Option, none, some, List, [], ◌∷◌, leb, if◌then◌else◌,
}
use mcp_oxide.Text.{format}
use mcp_oxide.Core.Error.{
  Error, to_string, forbidden, not_found, invalid_request, upstream_unavailable, upstream_timeout,
  internal, Result, ok, err, core, done, fail,
}
use mcp_oxide.Core.Json.{Json, as_str}
use mcp_oxide.Core.Json
use mcp_oxide.Core.Identity.{UserContext}
use mcp_oxide.Core.Policy.{tool_kind}
use mcp_oxide.Core.Model.{Tool}
use mcp_oxide.Core.Audit.{AuditDecision, allow, deny, AuditRecord}
use mcp_oxide.Core.Providers.{BackendEndpoint}
use mcp_oxide.Gateway.State.{AppState, World, named_handle}
use mcp_oxide.Gateway.Handler.{Host, Handler, return, try_core, reads, emit, ◌>>=◌, ◌>>◌}
use mcp_oxide.Gateway.DataPlane.Helpers.{DataPlaneAuthz, authorize_data_plane, data_audit_record}

-- crates/mcp/src/jsonrpc.rs
pub record ErrorObject : Type 0 where
  pub code_below_zero : ℕ
  pub message : String
  pub «data» : Option Json

pub record JsonRequest : Type 0 where
  pub jsonrpc : String
  pub id : Option Json
  pub method : String
  pub params : Option Json

pub record JsonResponse : Type 0 where
  pub jsonrpc : String
  pub id : Option Json
  pub result : Option Json
  pub error : Option ErrorObject

-- the codes are negative; the record keeps the number after the sign
unfoldable pub map_error_to_jsonrpc : Error → ErrorObject
map_error_to_jsonrpc (forbidden m) = record { code_below_zero = 32002; message = m; «data» = none }
map_error_to_jsonrpc (not_found m) = record { code_below_zero = 32601; message = m; «data» = none }
map_error_to_jsonrpc (invalid_request m) = record {
  code_below_zero = 32602;
  message = m;
  «data» = none;
}
map_error_to_jsonrpc (upstream_unavailable m) = record {
  code_below_zero = 32004;
  message = m;
  «data» = none;
}
map_error_to_jsonrpc (upstream_timeout m) = record {
  code_below_zero = 32005;
  message = m;
  «data» = none;
}
map_error_to_jsonrpc _ = record {
  code_below_zero = 32603;
  message = "internal_error";
  «data» = none;
}

-- What `reqwest` reports of a POST: an answer with its status as a number and as text, and the
-- reading of its body as JSON, or an error, which may be a timeout.
pub data PostOutcome : Type 0 where
  answered : (status : ℕ) (shown : String) (body : Result String Json) → PostOutcome
  timed_out failed : (error : String) → PostOutcome

-- The network and serde's reading of an answer. `post` is the backend's URL and the request, with
-- the milliseconds that it took.
pub record Network : Type 0 where
  pub post : String → JsonRequest → PostOutcome × ℕ
  pub from_value : Json → Option JsonResponse

abbrev pub is_success : ℕ → Bool
is_success status = if leb 200 status then leb status 299 else false

abbrev pub is_server_error : ℕ → Bool
is_server_error status = if leb 500 status then leb status 599 else false

-- the name that the parameters give
abbrev text_of : Option Json → Option String
text_of none = none
text_of (some v) = as_str v

abbrev name_or_error : Option String → Result Error String
name_or_error none = err (invalid_request "missing tool name")
name_or_error (some name) = ok name

unfoldable pub tool_name_of : Json → Result Error String
tool_name_of params = name_or_error (text_of (Json.get "name" params))

abbrev params_or_error : Option Json → Result Error Json
params_or_error none = err (invalid_request "tools/call requires params")
params_or_error (some v) = ok v

-- a provider that fails counts as one with no endpoint
unfoldable pub endpoint_of : Result Error (List BackendEndpoint) → Option String
endpoint_of (ok (ep ∷ eps)) = some ep.url
endpoint_of _ = none

abbrev forward_request : JsonRequest → Json → JsonRequest
forward_request rpc params = record {
  jsonrpc = "2.0";
  id = rpc.id;
  method = "tools/call";
  params = some params;
}

abbrev or_wrapped : JsonRequest → Json → Option JsonResponse → JsonResponse
or_wrapped rpc body (some upstream_rpc) = upstream_rpc
or_wrapped rpc body none = record { jsonrpc = "2.0"; id = rpc.id; result = some body; error = none }

module _ {V M D : Type 0} (host : Host V) (network : Network) (state : AppState M D)
    (user : UserContext) (trace_id request_hash : String) (rpc : JsonRequest) where
  abbrev pub call_audit :
      String → AuditDecision → Option String → ℕ → String → Option String → AuditRecord
  call_audit name decision policy_id latency_ms status error =
      data_audit_record host trace_id user "tools/call" "tool" name decision policy_id latency_ms
        status request_hash error

  -- `emit_audit(…)` and `return Err(e)`
  abbrev fail_with : {A : Type 0} → AuditRecord → Error → Handler M D A
  fail_with r e w = (fail (core e), record w { audit = r ∷ w.audit })

  abbrev found_tool : String → Result Error (Option Tool) → Handler M D Tool
  found_tool name (ok (some t)) = return t
  found_tool name (ok none) =
      fail_with (call_audit name deny none 0 "not_found" (some "tool not found"))
        (not_found (format ("tool '" ∷ name ∷ "'" ∷ [])))
  found_tool name (err e) = try_core (err (internal (to_string e)))

  abbrev permitted : Tool → Result String DataPlaneAuthz → Handler M D DataPlaneAuthz
  permitted t (ok a) = return a
  permitted t (err reason) =
      fail_with (call_audit t.name deny none 0 "forbidden" (some reason)) (forbidden reason)

  abbrev reachable : Tool → DataPlaneAuthz → Option String → Handler M D String
  reachable t a (some url) = return url
  reachable t a none =
      fail_with
        (call_audit t.name allow a.policy_id 0 "upstream_unavailable"
          (some "no ready endpoint for tool"))
        (upstream_unavailable "no ready endpoint for tool")

  abbrev body_of : Result String Json → Result Error Json
  body_of (ok v) = ok v
  body_of (err e) = err (internal (format ("parse response: " ∷ e ∷ [])))

  abbrev answered_by : Tool → DataPlaneAuthz → PostOutcome → ℕ → Handler M D Json
  answered_by t a (answered status shown body) latency_ms =
      if is_success status
      then try_core (body_of body)
      else fail_with
          (call_audit t.name allow a.policy_id latency_ms
            (if is_server_error status then "upstream_error" else "upstream_client_error")
            (some (format ("tool backend returned " ∷ shown ∷ []))))
          (upstream_unavailable (format ("tool backend returned " ∷ shown ∷ [])))
  answered_by t a (timed_out e) latency_ms =
      fail_with
        (call_audit t.name allow a.policy_id latency_ms "upstream_timeout"
          (some (format ("tool backend timeout: " ∷ e ∷ []))))
        (upstream_timeout (format ("tool backend timeout: " ∷ e ∷ [])))
  answered_by t a (failed e) latency_ms =
      fail_with
        (call_audit t.name allow a.policy_id latency_ms "upstream_unavailable"
          (some (format ("tool backend: " ∷ e ∷ []))))
        (upstream_unavailable (format ("tool backend: " ∷ e ∷ [])))

  -- the lookup, the authorisation and the endpoint: what comes before the request is sent
  unfoldable pub check_tools_call : Handler M D (Tool × DataPlaneAuthz × String × Json)
  unfolding ◌>>=◌ ◌>>◌
  check_tools_call = do
    params ← try_core (params_or_error rpc.params)
    name ← try_core (tool_name_of params)
    answer ← reads (λ w. state.metadata.get_tool name w.store)
    t ← found_tool name answer
    a ← permitted t (
        authorize_data_plane state.authz user "tools/call" (some t.tool_definition.name) tool_kind
          t.name t.tags t.required_roles)
    eps ← reads (λ w. state.deployment.endpoints (named_handle t.name) w.cluster)
    url ← reachable t a (endpoint_of eps)
    return (t, a, url, params)

  unfoldable pub forward_tools_call :
      Tool × DataPlaneAuthz × String × Json → Handler M D JsonResponse
  unfolding ◌>>=◌ ◌>>◌
  forward_tools_call (t, a, url, params) = do
    let (outcome, latency_ms) = network.post url (forward_request rpc params)
    body ← answered_by t a outcome latency_ms
    emit (call_audit t.name allow a.policy_id latency_ms "ok" none)
    return (or_wrapped rpc body (network.from_value body))

  unfoldable pub handle_tools_call : Handler M D JsonResponse
  handle_tools_call = check_tools_call >>= forward_tools_call
