-- ===== src/Core/Providers/Laws.antt =====
-- What the handlers rely on from a metadata store: a map from names to records, in which a call
-- that fails has changed nothing.
use mcp_oxide.Prelude.{String, none, some, ◌==◌, ◌≡◌, if◌then◌else◌}
use mcp_oxide.Core.Error.{Error, ok, err}
use mcp_oxide.Core.Model.{Adapter, Tool}
use mcp_oxide.Core.Providers.{MetadataStore}

pub record StoreLaws {M : Type 0} (s : MetadataStore M) : Type 0 where
  pub get-put_adapter :
      (a : Adapter) (m : M) (k : String)
      → (s.put_adapter a m).0 ≡ ok tt
      → s.get_adapter k (s.put_adapter a m).1
        ≡ (if a.name == k then ok (some a) else s.get_adapter k m)
  pub failed-put_adapter :
      (a : Adapter) (m : M) (k : String) (e : Error)
      → (s.put_adapter a m).0 ≡ err e
      → s.get_adapter k (s.put_adapter a m).1 ≡ s.get_adapter k m
  pub get-delete_adapter :
      (name : String) (m : M) (k : String)
      → (s.delete_adapter name m).0 ≡ ok tt
      → s.get_adapter k (s.delete_adapter name m).1
        ≡ (if name == k then ok none else s.get_adapter k m)
  pub failed-delete_adapter :
      (name : String) (m : M) (k : String) (e : Error)
      → (s.delete_adapter name m).0 ≡ err e
      → s.get_adapter k (s.delete_adapter name m).1 ≡ s.get_adapter k m
  pub get-put_tool :
      (t : Tool) (m : M) (k : String)
      → (s.put_tool t m).0 ≡ ok tt
      → s.get_tool k (s.put_tool t m).1 ≡ (if t.name == k then ok (some t) else s.get_tool k m)
  pub failed-put_tool :
      (t : Tool) (m : M) (k : String) (e : Error)
      → (s.put_tool t m).0 ≡ err e
      → s.get_tool k (s.put_tool t m).1 ≡ s.get_tool k m
  pub get-delete_tool :
      (name : String) (m : M) (k : String)
      → (s.delete_tool name m).0 ≡ ok tt
      → s.get_tool k (s.delete_tool name m).1 ≡ (if name == k then ok none else s.get_tool k m)
  pub failed-delete_tool :
      (name : String) (m : M) (k : String) (e : Error)
      → (s.delete_tool name m).0 ≡ err e
      → s.get_tool k (s.delete_tool name m).1 ≡ s.get_tool k m
