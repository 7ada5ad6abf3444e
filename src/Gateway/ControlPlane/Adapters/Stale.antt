-- ===== src/Gateway/ControlPlane/Adapters/Stale.antt =====
-- Optimistic concurrency of updates of adapters.
use mcp_oxide.Prelude.{
  ℕ, ◌+◌, ◌<◌, ◌^◌, String, Option, some, ◌==◌, eq_iff, ◌≡◌, arith, subst, refl, true, ◌∙◌,
}
use mcp_oxide.Core.Error.{ok, done}
use mcp_oxide.Core.Identity.{UserContext}
use mcp_oxide.Core.Model.{Adapter}
use mcp_oxide.Core.Providers.Laws.{StoreLaws}
use mcp_oxide.Gateway.State.{AppState, World}
use mcp_oxide.Gateway.Handler.{Host, HeaderMap}
use mcp_oxide.Gateway.ControlPlane.Helpers.{parse_if_match}
use mcp_oxide.Gateway.ControlPlane.Bodies.{UpdateAdapterBody, AdapterResponse}
use mcp_oxide.Gateway.ControlPlane.Steps.{Response, next_revision}
use mcp_oxide.Gateway.ControlPlane.Adapters.{update_adapter, changed_adapter, bumped_adapter}
use mcp_oxide.Gateway.ControlPlane.Adapters.Update.{Updatable, update_adapter-Updated}

name-updated :
    {V : Type 0} (host : Host V) (body : UpdateAdapterBody) (prev : Adapter)
    → (bumped_adapter host.now (changed_adapter body prev)).name ≡ prev.name
unfolding bumped_adapter changed_adapter
name-updated host body prev = refl

revision-updated :
    {V : Type 0} (host : Host V) (body : UpdateAdapterBody) (prev : Adapter)
    → (bumped_adapter host.now (changed_adapter body prev)).revision
      ≡ some (next_revision prev.revision)
unfolding bumped_adapter changed_adapter
revision-updated host body prev = refl

conflict_of :
    {old new : Option ℕ} {rev : ℕ}
    → old ≡ some rev
    → new ≡ some (next_revision old)
    → new ≡ some rev
    → rev + 1 < 2 ^ 64
    → ⊥
conflict_of h k l fits = ground arith

module _ {V M D : Type 0} (host : Host V) (state : AppState M D) (user : UserContext)
    (headers : HeaderMap V) (name : String) (w w' : World M D) where
  -- the revision that `If-Match` names is the one that was found
  found_revision :
      {body : UpdateAdapterBody} {p : Option String} {prev : Adapter} {rev : ℕ} {v : World M D}
      → parse_if_match host headers ≡ ok (some rev)
      → Updatable host state user headers name body v p prev
      → prev.revision ≡ some rev
  found_revision {body} {p} {prev} {rev} h u =
      let (header, parsed, fresh) = u.fresh in
      let same : header ≡ some rev = cc (parsed, h) in rw same at fresh

  -- An update that is sent again with the same `If-Match` header, whatever it changes, does not
  -- succeed a second time: the record has the next revision by then. This is for a store that is a
  -- map and holds the record under its name, and a revision below the last u64.
  pub update_adapter_once :
      (body body₂ : UpdateAdapterBody) (rev : ℕ) {resp : Response V AdapterResponse}
      → StoreLaws state.metadata
      → ((a : Adapter) → state.metadata.get_adapter name w.store ≡ ok (some a) → a.name ≡ name)
      → parse_if_match host headers ≡ ok (some rev)
      → rev + 1 < 2 ^ 64
      → update_adapter host state user headers name body w ≡ (done resp, w')
      → ¬ (
          (resp₂ : Response V AdapterResponse) × (w₂ : World M D) × (update_adapter host state user
              headers name body₂ w'
            ≡ (done resp₂, w₂)))
  update_adapter_once body body₂ rev laws named header fits first (resp₂, w₂, second) =
      let (p, prev, before, after) =
        update_adapter-Updated host state user headers name body w first in
      let (p₂, prev₂, before₂, _) =
        update_adapter-Updated host state user headers name body₂ w' second in
      let a = bumped_adapter host.now (changed_adapter body prev) in
      let stored = laws.get-put_adapter a w.store name after.put in
      let is_named : (a.name == name) ≡ true =
        (eq_iff a.name name).1 (name-updated host body prev ∙ named prev before.found) in
      let there : state.metadata.get_adapter name w'.store ≡ ok (some a) =
        rw after.store (stored ∙ (rw is_named)) in
      let same : prev₂ ≡ a = cc (there, before₂.found) in
      conflict_of (found_revision header before) (revision-updated host body prev)
        (subst (λ x. x.revision ≡ some rev) same (found_revision header before₂)) fits
