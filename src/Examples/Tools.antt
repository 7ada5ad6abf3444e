-- ===== src/Examples/Tools.antt =====
-- A tool that is created, changed and deleted.
use mcp_oxide.Prelude.{String, Option, none, some, List, [], ◌∷◌, ◌≡◌, refl, arith}
use mcp_oxide.Core.Error.{internal, forbidden, AppError, core, ok, err, done, fail}
use mcp_oxide.Core.Json
use mcp_oxide.Core.Model.{Tool}
use mcp_oxide.Metadata.Sorted.{get, insert, remove}
use mcp_oxide.Metadata.Memory
use mcp_oxide.Metadata.Memory.{InMemoryMetadataStore, empty_store, in_memory_store}
use mcp_oxide.Gateway.State.{World}
use mcp_oxide.Gateway.Handler.{HeaderMap, ◌>>=◌, ◌>>◌}
use mcp_oxide.Gateway.Validation.{validate_resource_name}
use mcp_oxide.Gateway.Validation.Names.{IsDnsLabel, single, validate_resource_name_iff}
use mcp_oxide.Gateway.ControlPlane.Helpers.{
  CpVerb, tool, create, update, delete, authorize, parse_if_match, etag_for, etag_text,
  location_for,
}
use mcp_oxide.Gateway.ControlPlane.Bodies.{
  ToolDefinitionBody, CreateToolBody, UpdateToolBody, ToolResponse, tool_response,
}
use mcp_oxide.Gateway.ControlPlane.Steps.{Response, Request, allowance, denial, check_env}
use mcp_oxide.Gateway.ControlPlane.Tools.{
  request_for, create_tool, check_create_tool, persist_tool, tool_of_body, update_tool,
  check_update_tool, rewrite_tool, changed_tool, bumped_tool, tool_deployment_changed, delete_tool,
  check_delete_tool, remove_tool,
}
use mcp_oxide.Gateway.ControlPlane.Tools.Create.{Creatable, Created, create_tool-Created}
use mcp_oxide.Gateway.ControlPlane.Tools.Update.{Updatable, Updated, update_tool-Updated}
use mcp_oxide.Gateway.ControlPlane.Tools.Stale.{update_tool_once}
use mcp_oxide.Metadata.Memory.Laws.{in_memory_store-StoreLaws}
use mcp_oxide.Gateway.ControlPlane.Tools.Delete.{Deletable, Deleted, delete_tool-Deleted}
use mcp_oxide.Gateway.ControlPlane.Helpers.ETag.{parse_if_match-etag_for}
use mcp_oxide.Examples.{
  host, host-KeepsText, admin, open_gateway, closed_gateway, broken_gateway, no_headers,
  fresh_world,
}

abbrev definition : ToolDefinitionBody
definition = record {
  name = "a";
  title = none;
  description = none;
  input_schema = Json.object Json.end;
  annotations = none;
}

abbrev body : CreateToolBody
body = record {
  name = "a";
  description = none;
  image = "example:1";
  endpoint_port = 8080;
  endpoint_path = "/tool";
  tool_definition = definition;
  env = [];
  secret_refs = [];
  required_roles = [];
  tags = "t" ∷ [];
  resources = none;
}

a-IsDnsLabel : IsDnsLabel "a"
a-IsDnsLabel = single "a" refl (ground arith)

a_valid : validate_resource_name "a" ≡ ok tt
a_valid = (validate_resource_name_iff "a").1 a-IsDnsLabel

abbrev holding : Tool → InMemoryMetadataStore
holding a = record { adapters = []; tools = ("a", a) ∷ [] }

abbrev first : Tool
first = tool_of_body 1000 body

abbrev request : CpVerb → Request String
request verb = request_for host open_gateway admin no_headers verb "a"

abbrev created : Response String ToolResponse
created = record {
  status = 201;
  location = some "/tools/a";
  etag = some (etag_text 1);
  body = tool_response host first;
}

abbrev created_world : World InMemoryMetadataStore Unit
created_world = record {
  store = holding first;
  cluster = tt;
  audit = allowance (request create) none ∷ [];
}

create_run :
    create_tool host open_gateway admin no_headers body fresh_world ≡ (done created, created_world)
unfolding create_tool check_create_tool persist_tool tool_of_body ◌>>=◌ ◌>>◌ authorize check_env
    location_for etag_for Memory.get_tool Memory.put_tool get insert
create_run = rw a_valid refl

create_tool-Created_example :
    (p : Option String) × (location : String) × Creatable host open_gateway admin no_headers body
      fresh_world p location
    × Created host open_gateway admin no_headers body fresh_world p location created created_world
create_tool-Created_example =
    create_tool-Created host open_gateway admin no_headers body fresh_world create_run

abbrev no_runtime : AppError
no_runtime = core (internal "no runtime")

abbrev rolled_back : World InMemoryMetadataStore Unit
rolled_back = record {
  store = empty_store;
  cluster = tt;
  audit = denial (request create) none no_runtime ∷ [];
}

broken_create_run :
    create_tool host broken_gateway admin no_headers body fresh_world
    ≡ (fail no_runtime, rolled_back)
unfolding create_tool check_create_tool persist_tool tool_of_body ◌>>=◌ ◌>>◌ authorize check_env
    location_for etag_for Memory.get_tool Memory.put_tool Memory.delete_tool get insert remove
broken_create_run = rw a_valid refl

deletes : (m : InMemoryMetadataStore) → (in_memory_store.delete_tool "a" m).0 ≡ ok tt
unfolding Memory.delete_tool
deletes m = refl

-- a change of the image, for the revision that the creation's answer shows
abbrev change : UpdateToolBody
change = record {
  description = none;
  image = some "example:2";
  endpoint_port = none;
  endpoint_path = none;
  tool_definition = none;
  env = none;
  secret_refs = none;
  required_roles = none;
  tags = none;
  resources = none;
  revision = none;
}

abbrev if_match_one : HeaderMap String
if_match_one = record no_headers { if_match = etag_for host 1 }

one_expected : parse_if_match host if_match_one ≡ ok (some 1)
one_expected = (parse_if_match-etag_for host if_match_one 1 host-KeepsText (omega arith) refl).1

abbrev second : Tool
second = bumped_tool 1000 (changed_tool change first)

abbrev changed : Response String ToolResponse
changed = record {
  status = 200;
  location = none;
  etag = some (etag_text 2);
  body = tool_response host second;
}

abbrev changed_world : World InMemoryMetadataStore Unit
changed_world = record {
  store = holding second;
  cluster = tt;
  audit = allowance (request_for host open_gateway admin if_match_one update "a") none ∷ [];
}

abbrev holding_world : World InMemoryMetadataStore Unit
holding_world = record { store = holding first; cluster = tt; audit = [] }

update_run :
    update_tool host open_gateway admin if_match_one "a" change holding_world
    ≡ (done changed, changed_world)
unfolding update_tool check_update_tool rewrite_tool tool_of_body changed_tool bumped_tool
    tool_deployment_changed ◌>>=◌ ◌>>◌ authorize etag_for Memory.get_tool Memory.put_tool get insert
update_run = rw one_expected refl

update_tool-Updated_example :
    (p : Option String) × (prev : Tool) × Updatable host open_gateway admin if_match_one "a" change
      holding_world p prev
    × Updated host open_gateway admin if_match_one "a" change holding_world p prev changed
        changed_world
update_tool-Updated_example =
    update_tool-Updated host open_gateway admin if_match_one "a" change holding_world update_run

first_named :
    (a : Tool) → in_memory_store.get_tool "a" holding_world.store ≡ ok (some a) → a.name ≡ "a"
unfolding Memory.get_tool get tool_of_body
first_named a h = ground arith

update_tool_once_example : ¬ (
    (resp : Response String ToolResponse) × (w : World InMemoryMetadataStore Unit) × (update_tool
        host open_gateway admin if_match_one "a" change changed_world
      ≡ (done resp, w)))
update_tool_once_example =
    update_tool_once host open_gateway admin if_match_one "a" holding_world changed_world change
      change 1 in_memory_store-StoreLaws first_named one_expected (omega arith) update_run

abbrev emptied_world : World InMemoryMetadataStore Unit
emptied_world = record {
  store = empty_store;
  cluster = tt;
  audit = allowance (request delete) none ∷ [];
}

delete_run :
    delete_tool host open_gateway admin no_headers "a" holding_world ≡ (done 204, emptied_world)
unfolding delete_tool check_delete_tool remove_tool tool_of_body ◌>>=◌ ◌>>◌ authorize parse_if_match
    Memory.get_tool Memory.delete_tool get remove
delete_run = refl

delete_tool-Deleted_example :
    (p : Option String) × (existing : Tool) × Deletable host open_gateway admin no_headers "a"
      holding_world p existing
    × Deleted host open_gateway admin no_headers "a" holding_world p existing 204 emptied_world
delete_tool-Deleted_example =
    delete_tool-Deleted host open_gateway admin no_headers "a" holding_world delete_run

abbrev kept_world : World InMemoryMetadataStore Unit
kept_world = record {
  store = holding first;
  cluster = tt;
  audit = denial (request delete) none no_runtime ∷ [];
}

broken_delete_run :
    delete_tool host broken_gateway admin no_headers "a" holding_world
    ≡ (fail no_runtime, kept_world)
unfolding delete_tool check_delete_tool remove_tool tool_of_body ◌>>=◌ ◌>>◌ authorize parse_if_match
    Memory.get_tool Memory.delete_tool get remove
broken_delete_run = refl

abbrev refusal : AppError
refusal = core (forbidden "default-deny")

refuses :
    (verb : CpVerb) (name : String) (tags : List String)
    → authorize closed_gateway.authz admin tool verb name tags ≡ err refusal
unfolding authorize
refuses verb name tags = refl
