-- ===== src/Metadata/Memory.antt =====
-- crates/metadata/src/memory.rs: the store that keeps its records in two maps.
pub mod Laws
use mcp_oxide.Prelude.{String, Bool, true, Option, List, [], ◌∷◌, any, all, keep, ◌==◌}
use mcp_oxide.Core.Error.{Error, ok, Result}
use mcp_oxide.Core.Model.{Adapter, Tool}
use mcp_oxide.Core.Providers.{Filter, MetadataStore}
use mcp_oxide.Metadata.Sorted.{get, insert, remove, values}

pub record InMemoryMetadataStore : Type 0 where
  pub adapters : List (String × Adapter)
  pub tools : List (String × Tool)

abbrev pub empty_store : InMemoryMetadataStore
empty_store = record { adapters = []; tools = [] }

-- an absent tag list asks for nothing, and `all` over it is true
unfoldable pub matches_filter : {A : Type 0} → A → Filter → (A → List String) → Bool
matches_filter item filter tags = elim filter.tags [
  | [] ↦ true
  | ◌∷◌ t ts ↦ all (λ tag. any (λ own. own == tag) (tags item)) (t ∷ ts)
]

unfoldable pub put_adapter :
    Adapter → InMemoryMetadataStore → Result Error (Unit {0}) × InMemoryMetadataStore
put_adapter a s = (ok tt, record s { adapters = insert a.name a s.adapters })

unfoldable pub get_adapter : String → InMemoryMetadataStore → Result Error (Option Adapter)
get_adapter name s = ok (get name s.adapters)

unfoldable pub list_adapters : Filter → InMemoryMetadataStore → Result Error (List Adapter)
list_adapters filter s = ok (keep (λ a. matches_filter a filter (λ b. b.tags)) (values s.adapters))

unfoldable pub delete_adapter :
    String → InMemoryMetadataStore → Result Error (Unit {0}) × InMemoryMetadataStore
delete_adapter name s = (ok tt, record s { adapters = remove name s.adapters })

unfoldable pub put_tool :
    Tool → InMemoryMetadataStore → Result Error (Unit {0}) × InMemoryMetadataStore
put_tool t s = (ok tt, record s { tools = insert t.name t s.tools })

unfoldable pub get_tool : String → InMemoryMetadataStore → Result Error (Option Tool)
get_tool name s = ok (get name s.tools)

unfoldable pub list_tools : Filter → InMemoryMetadataStore → Result Error (List Tool)
list_tools filter s = ok (keep (λ t. matches_filter t filter (λ b. b.tags)) (values s.tools))

unfoldable pub delete_tool :
    String → InMemoryMetadataStore → Result Error (Unit {0}) × InMemoryMetadataStore
delete_tool name s = (ok tt, record s { tools = remove name s.tools })

abbrev pub in_memory_store : MetadataStore InMemoryMetadataStore
in_memory_store = record {
  put_adapter = put_adapter;
  get_adapter = get_adapter;
  list_adapters = list_adapters;
  delete_adapter = delete_adapter;
  put_tool = put_tool;
  get_tool = get_tool;
  list_tools = list_tools;
  delete_tool = delete_tool;
}
