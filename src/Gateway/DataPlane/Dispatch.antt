-- ===== src/Gateway/DataPlane/Dispatch.antt =====
-- crates/gateway/src/routes/tool_router.rs: `POST /mcp`, which reads a JSON-RPC request and picks
-- the method that it names. A body is of an unknown type `B`.
pub mod Replies
use mcp_oxide.Prelude.{
  ℕ, ◌*◌, String, Bool, Option, none, some, List, [], ◌∷◌, ◌==◌, map, if◌then◌else◌,
}
use mcp_oxide.Text.{format}
use mcp_oxide.Core.Error.{
  Error, invalid_request, internal, Result, ok, err, AppError, core, internal_error, Outcome, done,
  fail, panic,
}
use mcp_oxide.Core.Json.{Json, Items, nil, cons, Fields, end, field}
use mcp_oxide.Core.Json
use mcp_oxide.Core.Identity.{UserContext}
use mcp_oxide.Core.Model.{ToolDefinition}
use mcp_oxide.Gateway.State.{AppState, World}
use mcp_oxide.Gateway.Handler.{Host, HeaderMap, Handler, return, try_core, ◌>>=◌}
use mcp_oxide.Gateway.ControlPlane.Helpers.{extract_trace_id}
use mcp_oxide.Gateway.DataPlane.ToolRouter.{ListParams, ToolsPage, handle_tools_list}
use mcp_oxide.Gateway.DataPlane.ToolCall.{
  JsonRequest, JsonResponse, ErrorObject, Network, map_error_to_jsonrpc, handle_tools_call,
}

-- axum's reading of a body of at most so many bytes, serde's reading and writing, and the digest
pub record Bodies (R B : Type 0) : Type 0 where
  pub to_bytes : R → ℕ → Result String B
  pub from_slice : B → Result String JsonRequest
  pub list_params : Json → Result String ListParams
  pub tool_json : ToolDefinition → Json
  pub to_vec : JsonResponse → Result String B
  pub sha256_hex : B → String

-- the response: the body is sent with status 200 as `application/json`
pub record HttpReply (B : Type 0) : Type 0 where
  pub status : ℕ
  pub content_type : String
  pub body : B

abbrev array_of : List Json → Items
array_of [] = nil
array_of (v ∷ vs) = cons v (array_of vs)

abbrev cursor_fields : Option String → Fields → Fields
cursor_fields none rest = rest
cursor_fields (some c) rest = field "nextCursor" (Json.string c) rest

-- the object that answers `tools/list`
unfoldable pub page_json : (ToolDefinition → Json) → ToolsPage → Json
page_json tool_json page = Json.object (
    cursor_fields page.next_cursor
      (field "tools" (Json.array (array_of (map tool_json page.tools))) end))

abbrev pub result_reply : JsonRequest → Json → JsonResponse
result_reply rpc v = record { jsonrpc = "2.0"; id = rpc.id; result = some v; error = none }

abbrev pub error_reply : JsonRequest → ErrorObject → JsonResponse
error_reply rpc e = record { jsonrpc = "2.0"; id = rpc.id; result = none; error = some e }

abbrev pub method_not_found : ErrorObject
method_not_found = record { code_below_zero = 32601; message = "method not found"; «data» = none }

abbrev pub core_of : AppError → Error
core_of (core e) = e
core_of (internal_error m) = internal m

module _ {M D : Type 0} where
  -- an error of the method becomes the error of the reply
  abbrev pub caught :
      JsonRequest → Outcome JsonResponse × World M D → Outcome JsonResponse × World M D
  caught rpc (done reply, w) = (done reply, w)
  caught rpc (fail e, w) = (done (error_reply rpc (map_error_to_jsonrpc (core_of e))), w)
  caught rpc (panic, w) = (panic, w)

module _ {V M D R B : Type 0} (host : Host V) (bodies : Bodies R B) (network : Network)
    (state : AppState M D) (user : UserContext) (headers : HeaderMap V) where
  abbrev pub listed : JsonRequest → Handler M D JsonResponse
  listed rpc = do
    page ←
        handle_tools_list host bodies.list_params state user (extract_trace_id host headers)
          rpc.params
    return (result_reply rpc (page_json bodies.tool_json page))

  abbrev pub called : B → JsonRequest → Handler M D JsonResponse
  called body rpc =
      handle_tools_call host network state user (extract_trace_id host headers)
        (format ("sha256:" ∷ bodies.sha256_hex body ∷ [])) rpc

  -- the `match` on the method
  unfoldable pub routed : B → JsonRequest → Handler M D JsonResponse
  unfolding ◌>>=◌
  routed body rpc =
      if rpc.method == "tools/list"
      then listed rpc
      else if rpc.method == "tools/call"
      then called body rpc
      else if rpc.method == "ping"
      then return (result_reply rpc (Json.object end))
      else return (error_reply rpc method_not_found)

  abbrev pub serialized : Result String B → Handler M D (HttpReply B)
  serialized (ok bytes) =
      return (record { status = 200; content_type = "application/json"; body = bytes })
  serialized (err e) = try_core (err (internal (format ("serialize: " ∷ e ∷ []))))

  abbrev pub replied : JsonResponse → Handler M D (HttpReply B)
  replied reply = serialized (bodies.to_vec reply)

  abbrev parsed : B → Result String JsonRequest → Handler M D (HttpReply B)
  parsed body (err e) = try_core (err (invalid_request (format ("parse json-rpc: " ∷ e ∷ []))))
  parsed body (ok rpc) = (λ w. caught rpc (routed body rpc w)) >>= replied

  abbrev read : Result String B → Handler M D (HttpReply B)
  read (err e) = try_core (err (invalid_request (format ("read body: " ∷ e ∷ []))))
  read (ok body) = parsed body (bodies.from_slice body)

  unfoldable pub route : R → Handler M D (HttpReply B)
  route request = read (bodies.to_bytes request (1024 * 1024))
