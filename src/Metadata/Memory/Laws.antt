-- ===== src/Metadata/Memory/Laws.antt =====
-- The laws of the in-memory store of crates/metadata/src/memory.rs.
use mcp_oxide.Prelude.{Bool, refl, true, false, ◌==◌, ◌≡◌, ap, ◌∙◌, if◌then◌else◌}
use mcp_oxide.Core.Error.{ok}
use mcp_oxide.Core.Providers.Laws.{StoreLaws}
use mcp_oxide.Metadata.Sorted.{get-insert, get-remove}
use mcp_oxide.Metadata.Memory.{
  in_memory_store, put_adapter, get_adapter, delete_adapter, put_tool, get_tool, delete_tool,
}

if_apply :
    {A B : Type 0} (f : A → B) (b : Bool) (x y : A)
    → f (if b then x else y) ≡ (if b then f x else f y)
if_apply f true x y = refl
if_apply f false x y = refl

-- The in-memory store is a map from names to records: after a put or a delete that answers ok, a
-- lookup of any name sees exactly that change, and a failed call has changed nothing.
pub in_memory_store-StoreLaws : StoreLaws in_memory_store
unfolding put_adapter get_adapter delete_adapter put_tool get_tool delete_tool
in_memory_store-StoreLaws = record {
  get-put_adapter =
      λ a m k h. ap ok (get-insert k a.name a m.adapters) ∙ if_apply ok (a.name == k) _ _;
  failed-put_adapter = λ a m k e h. cc;
  get-delete_adapter =
      λ name m k h. ap ok (get-remove k name m.adapters) ∙ if_apply ok (name == k) _ _;
  failed-delete_adapter = λ name m k e h. cc;
  get-put_tool = λ t m k h. ap ok (get-insert k t.name t m.tools) ∙ if_apply ok (t.name == k) _ _;
  failed-put_tool = λ t m k e h. cc;
  get-delete_tool = λ name m k h. ap ok (get-remove k name m.tools) ∙ if_apply ok (name == k) _ _;
  failed-delete_tool = λ name m k e h. cc;
}
