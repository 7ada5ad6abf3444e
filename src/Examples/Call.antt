-- ===== src/Examples/Call.antt =====
-- `tools/call` on a store of one tool, with a backend that answers null.
use mcp_oxide.Prelude.{none, some, [], ◌∷◌, ◌≡◌, ◌≢◌}
use mcp_oxide.Core.Error.{ok, panic}
use mcp_oxide.Core.Json.{Json}
use mcp_oxide.Core.Json
use mcp_oxide.Core.Audit.{allow}
use mcp_oxide.Deployment.{noop_external_provider}
use mcp_oxide.Metadata.Memory
use mcp_oxide.Metadata.Memory.{InMemoryMetadataStore, empty_store}
use mcp_oxide.Gateway.State.{AppState, World}
use mcp_oxide.Gateway.DataPlane.ToolCall.{
  JsonRequest, JsonResponse, Network, answered, call_audit, handle_tools_call,
}
use mcp_oxide.Gateway.DataPlane.ToolCall.Guard.{handle_tools_call_reads}
use mcp_oxide.Examples.{host, admin, allow_all_engine, gateway_with}
use mcp_oxide.Examples.Router.{world}

abbrev pub network : Network
network = record {
  post = λ url request. (answered 200 "200 OK" (ok Json.null), 5);
  from_value = λ v. none;
}

abbrev gateway : AppState InMemoryMetadataStore Unit
gateway = gateway_with allow_all_engine (record noop_external_provider {
  endpoints = λ handle d.
      ok (record { url = "http://a:8080/tool"; backend_id = record { backend = "a" } } ∷ []);
})

abbrev params : Json
params = Json.object (Json.field "name" (Json.string "a") Json.end)

abbrev rpc : JsonRequest
rpc = record { jsonrpc = "2.0"; id = none; method = "tools/call"; params = some params }

abbrev reply : JsonResponse
reply = record { jsonrpc = "2.0"; id = none; result = some Json.null; error = none }

abbrev called_world : World InMemoryMetadataStore Unit
called_world = record world {
  audit = call_audit host network gateway admin "trace" "hash" rpc "a" allow none 5 "ok" none ∷ [];
}

handle_tools_call_reads_example :
    ((handle_tools_call host network gateway admin "trace" "hash" rpc world).1.store ≡ world.store)
    × ((handle_tools_call host network gateway admin "trace" "hash" rpc world).1.cluster ≡ tt)
    × ((handle_tools_call host network gateway admin "trace" "hash" rpc world).0 ≢ panic)
handle_tools_call_reads_example =
    handle_tools_call_reads host network gateway admin "trace" "hash" rpc world
