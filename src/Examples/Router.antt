-- ===== src/Examples/Router.antt =====
-- `tools/list` on a store of one tool.
use mcp_oxide.Prelude.{
  ℕ, ◌+◌, ◌-◌, ◌<◌, ◌≤◌, ◌^◌, String, none, some, List, [], ◌∷◌, ◌≡◌, ◌↔◌, refl, arith, length,
  drop, All,
}
use mcp_oxide.Core.Error.{Result, ok, done}
use mcp_oxide.Core.Json.{Json}
use mcp_oxide.Core.Json
use mcp_oxide.Core.Model.{Tool}
use mcp_oxide.Core.Audit.{allow}
use mcp_oxide.Metadata.Sorted.{values}
use mcp_oxide.Metadata.Memory
use mcp_oxide.Metadata.Memory.{InMemoryMetadataStore, empty_store, matches_filter}
use mcp_oxide.Gateway.State.{World}
use mcp_oxide.Gateway.Handler.{◌>>=◌, ◌>>◌}
use mcp_oxide.Gateway.DataPlane.Helpers.{
  DataPlaneAuthz, authorize_data_plane, data_judged, required_roles_satisfied,
}
use mcp_oxide.Gateway.DataPlane.ToolRouter.{
  ListParams, ToolsPage, page_of, next_cursor_of, cursor_start_of, list_params_of, list_audit,
  can_call_tool, handle_tools_list,
}
use mcp_oxide.Gateway.DataPlane.ToolRouter.Paging.{pages, pages_complete}
use mcp_oxide.Gateway.DataPlane.ToolRouter.Visible.{
  page_of_panics_iff, Callable, Listed, visible, handle_tools_list-Listed,
  handle_tools_list_answers,
}
use mcp_oxide.Examples.{host, admin, open_gateway}

abbrev numbers : List ℕ
numbers = 10 ∷ 20 ∷ 30 ∷ []

pages_complete_example : pages 4 0 2 numbers ≡ some (drop 0 numbers)
pages_complete_example =
    pages_complete 4 0 2 numbers (omega arith) (omega arith) (omega arith) (omega arith)

page_of_panics_iff_example :
    (page_of (2 ^ 64 - 1) 2 numbers ≡ none)
    ↔ ((2 ^ 64 ≤ 2 ^ 64 - 1 + 2) × (2 ^ 64 - 1 + 2 < 2 ^ 64 + length numbers))
page_of_panics_iff_example = page_of_panics_iff (2 ^ 64 - 1) 2 numbers (omega arith) (omega arith)

-- a reader of parameters that takes every object for the empty one
abbrev from_value : Json → Result String ListParams
from_value v = ok (record { cursor = none; page_size = none })

abbrev pub tool : Tool
tool = record {
  name = "a";
  description = none;
  image = record { reference = "example:1" };
  endpoint = record { port = 8080; path = "/tool" };
  tool_definition = record {
    name = "a";
    title = none;
    description = none;
    input_schema = Json.object Json.end;
    annotations = none;
  };
  env = [];
  secret_refs = [];
  required_roles = "admin" ∷ [];
  tags = [];
  resources = record { cpu = none; memory = none };
  revision = some 1;
  created_at = none;
  updated_at = none;
}

abbrev pub world : World InMemoryMetadataStore Unit
world = record { store = record empty_store { tools = ("a", tool) ∷ [] }; cluster = tt; audit = [] }

abbrev answer : ToolsPage
answer = record { tools = tool.tool_definition ∷ []; next_cursor = none }

abbrev listed_world : World InMemoryMetadataStore Unit
listed_world = record world {
  audit = list_audit host from_value open_gateway admin "trace" allow none "ok" none ∷ [];
}

list_run :
    handle_tools_list host from_value open_gateway admin "trace" none world
    ≡ (done answer, listed_world)
unfolding handle_tools_list ◌>>=◌ ◌>>◌ authorize_data_plane data_judged required_roles_satisfied
    list_params_of Memory.list_tools matches_filter values can_call_tool page_of next_cursor_of
    cursor_start_of
list_run = refl

handle_tools_list-Listed_example :
    (authz : DataPlaneAuthz) × (params : ListParams) × (tools : List Tool) × (page : List Tool)
    × Listed host from_value open_gateway admin "trace" none world authz params tools page answer
        listed_world
    × All
        (Callable open_gateway.authz admin)
        (visible host from_value open_gateway admin "trace" none world tools)
handle_tools_list-Listed_example =
    handle_tools_list-Listed host from_value open_gateway admin "trace" none world list_run

handle_tools_list_answers_example :
    (shown : ToolsPage) × ((handle_tools_list host from_value open_gateway admin "trace" none
        world).0
      ≡ done shown)
unfolding authorize_data_plane data_judged required_roles_satisfied list_params_of Memory.list_tools
    matches_filter values cursor_start_of
handle_tools_list_answers_example =
    handle_tools_list_answers host from_value open_gateway admin "trace" none world
      (record { policy_id = none }) (record { cursor = none; page_size = none }) (tool ∷ []) refl
      refl refl (omega arith)
