-- ===== src/Gateway/DataPlane/ToolCall/Guard.antt =====
-- What stands behind an answer of `tools/call`, and what a call leaves behind.
use mcp_oxide.Prelude.{ℕ, String, true, none, some, ◌∷◌, ◌≡◌, ◌≢◌, arith}
use mcp_oxide.Core.Error.{ok, panic}
use mcp_oxide.Core.Json.{Json}
use mcp_oxide.Core.Identity.{UserContext}
use mcp_oxide.Core.Policy.{tool_kind}
use mcp_oxide.Core.Model.{Tool}
use mcp_oxide.Core.Audit.{allow}
use mcp_oxide.Gateway.State.{AppState, World, named_handle}
use mcp_oxide.Gateway.Handler.{Host}
use mcp_oxide.Gateway.DataPlane.Helpers.{DataPlaneAuthz, authorize_data_plane}
use mcp_oxide.Gateway.DataPlane.ToolCall.{
  JsonRequest, JsonResponse, Network, answered, is_success, tool_name_of, endpoint_of,
  forward_request, or_wrapped, call_audit, check_tools_call, forward_tools_call, handle_tools_call,
}

module _ {V M D : Type 0} (host : Host V) (network : Network) (state : AppState M D)
    (user : UserContext) (trace_id request_hash : String) (rpc : JsonRequest) (w : World M D) where
  -- what comes before the request is sent
  pub record Cleared (t : Tool) (a : DataPlaneAuthz) (url : String) (params : Json) : Type 0 where
    pub asked : rpc.params ≡ some params
    pub named :
        (name : String) × (tool_name_of params ≡ ok name)
        × (state.metadata.get_tool name w.store ≡ ok (some t))
    pub permitted :
        authorize_data_plane state.authz user "tools/call"
          (some t.tool_definition.name)
          tool_kind
          t.name
          t.tags
          t.required_roles
        ≡ ok a
    pub ready : endpoint_of (state.deployment.endpoints (named_handle t.name) w.cluster) ≡ some url

  pub record Forwarded (t : Tool) (a : DataPlaneAuthz) (url : String) (params : Json)
      (resp : JsonResponse) (status : ℕ) (shown : String) (body : Json) (w' : World M D)
      : Type 0 where
    pub reply : (network.post url (forward_request rpc params)).0 ≡ answered status shown (ok body)
    pub success : is_success status ≡ true
    pub shaped : resp ≡ or_wrapped rpc body (network.from_value body)
    pub audited : w' ≡ record w {
      audit =
          call_audit host network state user trace_id request_hash rpc t.name allow a.policy_id
            (network.post url (forward_request rpc params)).1
            "ok"
            none
          ∷ w.audit;
    }

  -- A `tools/call` leaves the metadata store and the deployment runtime as they were, however it
  -- ends, and never panics.
  pub handle_tools_call_reads :
      ((handle_tools_call host network state user trace_id request_hash rpc w).1.store ≡ w.store)
      × ((handle_tools_call host network state user trace_id request_hash rpc w).1.cluster
          ≡ w.cluster)
      × ((handle_tools_call host network state user trace_id request_hash rpc w).0 ≢ panic)
  unfolding handle_tools_call check_tools_call forward_tools_call
  handle_tools_call_reads = (ground arith, ground arith, λ h. ground arith)
