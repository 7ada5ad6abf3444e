-- ===== src/Examples/Dispatch.antt =====
-- A ping, and the reply that is written for it.
use mcp_oxide.Prelude.{String, none, some, ◌≡◌, ◌⊎◌, refl}
use mcp_oxide.Core.Error.{ok, err, panic}
use mcp_oxide.Core.Json
use mcp_oxide.Gateway.State.{World}
use mcp_oxide.Metadata.Memory.{InMemoryMetadataStore}
use mcp_oxide.Gateway.DataPlane.ToolCall.{JsonRequest, JsonResponse}
use mcp_oxide.Gateway.DataPlane.Dispatch.{Bodies, routed}
use mcp_oxide.Gateway.DataPlane.Dispatch.Replies.{Answers, Sent, route_replies}
use mcp_oxide.Examples.{host, admin, open_gateway, no_headers, fresh_world}
use mcp_oxide.Examples.Call.{network}

abbrev rpc : JsonRequest
rpc = record { jsonrpc = "2.0"; id = some (Json.number "7"); method = "ping"; params = none }

abbrev bodies : Bodies String String
bodies = record {
  to_bytes = λ request limit. ok request;
  from_slice = λ body. ok rpc;
  list_params = λ v. err "not asked for";
  tool_json = λ t. Json.null;
  to_vec = λ reply. ok "{}";
  sha256_hex = λ body. "00";
}

route_replies_example :
    ((routed host bodies network open_gateway admin no_headers "{}" rpc fresh_world).0 ≡ panic)
    ⊎ ((reply : JsonResponse) × (w' : World InMemoryMetadataStore Unit) × Answers host bodies
          network open_gateway admin no_headers "{}" rpc fresh_world reply w'
        × Sent host bodies network open_gateway admin no_headers "{}" fresh_world reply w')
route_replies_example =
    route_replies host bodies network open_gateway admin no_headers "{}" "{}" rpc fresh_world refl
      refl
