-- ===== src/Examples/Adapters.antt =====
-- An adapter that is created, changed and deleted.
use mcp_oxide.Prelude.{String, Option, none, some, List, [], ◌∷◌, ◌≡◌, refl, arith}
use mcp_oxide.Core.Error.{internal, forbidden, AppError, core, ok, err, done, fail}
use mcp_oxide.Core.Model.{Adapter}
use mcp_oxide.Metadata.Sorted.{get, insert, remove}
use mcp_oxide.Metadata.Memory
use mcp_oxide.Metadata.Memory.{InMemoryMetadataStore, empty_store, in_memory_store}
use mcp_oxide.Metadata.Memory.Laws.{in_memory_store-StoreLaws}
use mcp_oxide.Gateway.State.{World}
use mcp_oxide.Gateway.Handler.{HeaderMap, ◌>>=◌, ◌>>◌}
use mcp_oxide.Gateway.Validation.{validate_resource_name}
use mcp_oxide.Gateway.Validation.Names.{IsDnsLabel, single, validate_resource_name_iff}
use mcp_oxide.Gateway.ControlPlane.Helpers.{
  CpVerb, adapter, create, read, update, delete, authorize, parse_if_match, etag_for, etag_text,
  location_for,
}
use mcp_oxide.Gateway.ControlPlane.Bodies.{
  CreateAdapterBody, UpdateAdapterBody, AdapterResponse, adapter_response,
}
use mcp_oxide.Gateway.ControlPlane.Steps.{Response, Request, allowance, denial, check_env}
use mcp_oxide.Gateway.ControlPlane.Adapters.{
  request_for, create_adapter, check_create_adapter, persist_adapter, adapter_of_body, get_adapter,
  update_adapter, check_update_adapter, rewrite_adapter, changed_adapter, bumped_adapter,
  adapter_deployment_changed, delete_adapter, check_delete_adapter, remove_adapter,
}
use mcp_oxide.Gateway.ControlPlane.Adapters.Create.{
  Creatable, Created, create_adapter-Created, create_adapter_failed,
}
use mcp_oxide.Gateway.ControlPlane.Adapters.Update.{Updatable, Updated, update_adapter-Updated}
use mcp_oxide.Gateway.ControlPlane.Adapters.Stale.{update_adapter_once}
use mcp_oxide.Gateway.ControlPlane.Adapters.Delete.{
  Deletable, Deleted, delete_adapter-Deleted, delete_adapter_failed,
}
use mcp_oxide.Gateway.ControlPlane.Adapters.Access.{refused, adapters_refused}
use mcp_oxide.Gateway.ControlPlane.Helpers.ETag.{parse_if_match-etag_for}
use mcp_oxide.Examples.{
  host, host-KeepsText, admin, open_gateway, closed_gateway, broken_gateway, no_headers,
  fresh_world,
}

abbrev body : CreateAdapterBody
body = record {
  name = "a";
  description = none;
  image = "example:1";
  endpoint_port = 8080;
  endpoint_path = "/mcp";
  upstream = none;
  replicas = 1;
  env = [];
  secret_refs = [];
  required_roles = [];
  tags = "t" ∷ [];
  resources = none;
  health = none;
  session_affinity = none;
  labels = [];
}

a-IsDnsLabel : IsDnsLabel "a"
a-IsDnsLabel = single "a" refl (ground arith)

a_valid : validate_resource_name "a" ≡ ok tt
a_valid = (validate_resource_name_iff "a").1 a-IsDnsLabel

abbrev holding : Adapter → InMemoryMetadataStore
holding a = record { adapters = ("a", a) ∷ []; tools = [] }

abbrev first : Adapter
first = adapter_of_body 1000 body

abbrev request : CpVerb → Request String
request verb = request_for host open_gateway admin no_headers verb "a"

abbrev created : Response String AdapterResponse
created = record {
  status = 201;
  location = some "/adapters/a";
  etag = some (etag_text 1);
  body = adapter_response host first;
}

abbrev created_world : World InMemoryMetadataStore Unit
created_world = record {
  store = holding first;
  cluster = tt;
  audit = allowance (request create) none ∷ [];
}

create_run :
    create_adapter host open_gateway admin no_headers body fresh_world
    ≡ (done created, created_world)
unfolding create_adapter check_create_adapter persist_adapter adapter_of_body ◌>>=◌ ◌>>◌ authorize
    check_env location_for etag_for Memory.get_adapter Memory.put_adapter get insert
create_run = rw a_valid refl

create_adapter-Created_example :
    (p : Option String) × (location : String) × Creatable host open_gateway admin no_headers body
      fresh_world p location
    × Created host open_gateway admin no_headers body fresh_world p location created created_world
create_adapter-Created_example =
    create_adapter-Created host open_gateway admin no_headers body fresh_world create_run

abbrev no_runtime : AppError
no_runtime = core (internal "no runtime")

abbrev rolled_back : World InMemoryMetadataStore Unit
rolled_back = record {
  store = empty_store;
  cluster = tt;
  audit = denial (request create) none no_runtime ∷ [];
}

broken_create_run :
    create_adapter host broken_gateway admin no_headers body fresh_world
    ≡ (fail no_runtime, rolled_back)
unfolding create_adapter check_create_adapter persist_adapter adapter_of_body ◌>>=◌ ◌>>◌ authorize
    check_env location_for etag_for Memory.get_adapter Memory.put_adapter Memory.delete_adapter get
    insert remove
broken_create_run = rw a_valid refl

deletes : (m : InMemoryMetadataStore) → (in_memory_store.delete_adapter "a" m).0 ≡ ok tt
unfolding Memory.delete_adapter
deletes m = refl

create_adapter_failed_example :
    in_memory_store.get_adapter "a" rolled_back.store
    ≡ in_memory_store.get_adapter "a" fresh_world.store
create_adapter_failed_example =
    create_adapter_failed host broken_gateway admin no_headers body fresh_world
      in_memory_store-StoreLaws deletes broken_create_run "a"

-- a change of the image, for the revision that the creation's answer shows
abbrev change : UpdateAdapterBody
change = record {
  description = none;
  image = some "example:2";
  endpoint_port = none;
  endpoint_path = none;
  upstream = none;
  replicas = none;
  env = none;
  secret_refs = none;
  required_roles = none;
  tags = none;
  resources = none;
  health = none;
  session_affinity = none;
  labels = none;
  revision = none;
}

abbrev if_match_one : HeaderMap String
if_match_one = record no_headers { if_match = etag_for host 1 }

one_expected : parse_if_match host if_match_one ≡ ok (some 1)
one_expected = (parse_if_match-etag_for host if_match_one 1 host-KeepsText (omega arith) refl).1

abbrev second : Adapter
second = bumped_adapter 1000 (changed_adapter change first)

abbrev changed : Response String AdapterResponse
changed = record {
  status = 200;
  location = none;
  etag = some (etag_text 2);
  body = adapter_response host second;
}

abbrev changed_world : World InMemoryMetadataStore Unit
changed_world = record {
  store = holding second;
  cluster = tt;
  audit = allowance (request_for host open_gateway admin if_match_one update "a") none ∷ [];
}

abbrev holding_world : World InMemoryMetadataStore Unit
holding_world = record { store = holding first; cluster = tt; audit = [] }

update_run :
    update_adapter host open_gateway admin if_match_one "a" change holding_world
    ≡ (done changed, changed_world)
unfolding update_adapter check_update_adapter rewrite_adapter adapter_of_body changed_adapter
    bumped_adapter adapter_deployment_changed ◌>>=◌ ◌>>◌ authorize etag_for Memory.get_adapter
    Memory.put_adapter get insert
update_run = rw one_expected refl

update_adapter-Updated_example :
    (p : Option String) × (prev : Adapter) × Updatable host open_gateway admin if_match_one "a"
      change holding_world p prev
    × Updated host open_gateway admin if_match_one "a" change holding_world p prev changed
        changed_world
update_adapter-Updated_example =
    update_adapter-Updated host open_gateway admin if_match_one "a" change holding_world update_run

first_named :
    (a : Adapter) → in_memory_store.get_adapter "a" holding_world.store ≡ ok (some a) → a.name ≡ "a"
unfolding Memory.get_adapter get adapter_of_body
first_named a h = ground arith

update_adapter_once_example : ¬ (
    (resp : Response String AdapterResponse) × (w : World InMemoryMetadataStore Unit)
    × (update_adapter host open_gateway admin if_match_one "a" change changed_world
        ≡ (done resp, w)))
update_adapter_once_example =
    update_adapter_once host open_gateway admin if_match_one "a" holding_world changed_world change
      change 1 in_memory_store-StoreLaws first_named one_expected (omega arith) update_run

abbrev emptied_world : World InMemoryMetadataStore Unit
emptied_world = record {
  store = empty_store;
  cluster = tt;
  audit = allowance (request delete) none ∷ [];
}

delete_run :
    delete_adapter host open_gateway admin no_headers "a" holding_world ≡ (done 204, emptied_world)
unfolding delete_adapter check_delete_adapter remove_adapter adapter_of_body ◌>>=◌ ◌>>◌ authorize
    parse_if_match Memory.get_adapter Memory.delete_adapter get remove
delete_run = refl

delete_adapter-Deleted_example :
    (p : Option String) × (existing : Adapter) × Deletable host open_gateway admin no_headers "a"
      holding_world p existing
    × Deleted host open_gateway admin no_headers "a" holding_world p existing 204 emptied_world
delete_adapter-Deleted_example =
    delete_adapter-Deleted host open_gateway admin no_headers "a" holding_world delete_run

abbrev kept_world : World InMemoryMetadataStore Unit
kept_world = record {
  store = holding first;
  cluster = tt;
  audit = denial (request delete) none no_runtime ∷ [];
}

broken_delete_run :
    delete_adapter host broken_gateway admin no_headers "a" holding_world
    ≡ (fail no_runtime, kept_world)
unfolding delete_adapter check_delete_adapter remove_adapter adapter_of_body ◌>>=◌ ◌>>◌ authorize
    parse_if_match Memory.get_adapter Memory.delete_adapter get remove
broken_delete_run = refl

delete_adapter_failed_example :
    in_memory_store.get_adapter "a" kept_world.store
    ≡ in_memory_store.get_adapter "a" holding_world.store
delete_adapter_failed_example =
    delete_adapter_failed host broken_gateway admin no_headers "a" holding_world
      in_memory_store-StoreLaws broken_delete_run "a"

abbrev refusal : AppError
refusal = core (forbidden "default-deny")

refuses :
    (verb : CpVerb) (name : String) (tags : List String)
    → authorize closed_gateway.authz admin adapter verb name tags ≡ err refusal
unfolding authorize
refuses verb name tags = refl

adapters_refused_example :
    get_adapter host closed_gateway admin no_headers "a" holding_world
    ≡ (fail refusal, refused host closed_gateway admin no_headers holding_world read "a" refusal)
adapters_refused_example =
    (adapters_refused host closed_gateway admin no_headers holding_world (λ verb name tags. refusal)
      refuses body change "a" none).2
