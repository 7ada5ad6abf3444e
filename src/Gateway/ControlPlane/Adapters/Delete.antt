-- ===== src/Gateway/ControlPlane/Adapters/Delete.antt =====
-- `delete_adapter`: what a success means, and what a failure leaves behind.
use mcp_oxide.Prelude.{
  ℕ, String, Option, some, [], ◌≡◌, ap, arith, is_none, is_some, Bool-cases, true, ◌⊎◌,
  if◌then◌else◌, inl, inr, refl,
}
use mcp_oxide.Core.Error.{ok, AppError, done, fail, Result-cases}
use mcp_oxide.Core.Identity.{UserContext}
use mcp_oxide.Core.Model.{Adapter}
use mcp_oxide.Core.Providers.Laws.{StoreLaws}
use mcp_oxide.Gateway.State.{AppState, World}
use mcp_oxide.Gateway.Handler.{Host, HeaderMap}
use mcp_oxide.Gateway.Handler.Inversion.{bind-done, bind-fail}
use mcp_oxide.Gateway.ControlPlane.Helpers.{
  adapter, delete, parse_if_match, handle_for, action_name,
}
use mcp_oxide.Gateway.ControlPlane.Steps.{allowance}
use mcp_oxide.Gateway.ControlPlane.Adapters.{
  request_for, delete_adapter, check_delete_adapter, remove_adapter,
}
use mcp_oxide.Core.Policy.{adapter_kind}
use mcp_oxide.Gateway.ControlPlane.Guarantees.{
  Allowed, authorize-Allowed, Audited, AsExpected, check_revision-AsExpected, DeletedOrMissing,
  undeployed-DeletedOrMissing,
}

module _ {V M D : Type 0} (host : Host V) (state : AppState M D) (user : UserContext)
    (headers : HeaderMap V) (name : String) (w : World M D) where
  pub record Deletable (policy_id : Option String) (existing : Adapter) : Type 0 where
    pub allowed : Allowed state.authz user adapter_kind "adapters.delete" name [] policy_id
    pub found : state.metadata.get_adapter name w.store ≡ ok (some existing)
    pub fresh :
        (rev : Option ℕ) × (parse_if_match host headers ≡ ok rev) × AsExpected rev existing.revision

  check_delete_adapter-done :
      {p : Option String} {existing : Adapter} {w₁ : World M D}
      → check_delete_adapter host state user headers name w ≡ (done (p, existing), w₁)
      → Deletable p existing × (w₁ ≡ w)
  unfolding check_delete_adapter action_name
  check_delete_adapter-done {existing = existing} h = (
    record {
      allowed = authorize-Allowed state.authz user adapter delete name [] (ground arith);
      found = ground arith;
      fresh = elim (Result-cases (parse_if_match host headers)) [
        | inl (e, x) ↦ ground arith
        | inr (rev, x) ↦ (rev, x, check_revision-AsExpected rev existing.revision (ground arith))
      ];
    },
    ground arith,
  )

  pub record Deleted (policy_id : Option String) (existing : Adapter) (code : ℕ) (w' : World M D)
      : Type 0 where
    pub torn_down :
        (is_some existing.upstream ≡ true)
        ⊎ (DeletedOrMissing (state.deployment.delete (handle_for name) w.cluster).0)
    pub cluster : w'.cluster ≡ (
        if is_none existing.upstream
        then (state.deployment.delete (handle_for name) w.cluster).1
        else w.cluster)
    pub gone : (state.metadata.delete_adapter name w.store).0 ≡ ok tt
    pub store : w'.store ≡ (state.metadata.delete_adapter name w.store).1
    pub audited : Audited host user headers "adapters.delete" "adapter" name policy_id w w'
    pub no_content : code ≡ 204

  remove_adapter-done :
      {p : Option String} {existing : Adapter} {code : ℕ} {w' : World M D}
      → remove_adapter host state user headers name (p, existing) w ≡ (done code, w')
      → Deleted p existing code w'
  unfolding remove_adapter action_name
  remove_adapter-done {p} {existing} h = record {
    torn_down = elim (Bool-cases (is_some existing.upstream)) [
      | inl y ↦ inl y
      | inr n ↦ inr (
          undeployed-DeletedOrMissing (state.deployment.delete (handle_for name) w.cluster).0
            (ground arith))
    ];
    cluster = ground arith;
    gone = ground arith;
    store = ground arith;
    audited = record {
      entry = allowance (request_for host state user headers delete name) p;
      added = ground arith;
      decision = refl;
      policy = refl;
      error = refl;
      who = (refl, refl, refl);
      action = refl;
      on = (refl, refl);
      trace = refl;
    };
    no_content = ground arith;
  }

  -- A deletion that `delete_adapter` answers with 204 was one for which the policy engine decided
  -- to allow adapters.delete, of a record that was found and has the revision that If-Match names,
  -- if it names one; unless the record has an upstream, its deployment was deleted or reported not
  -- found, the record was deleted, and one audit record more names the user and the policy that
  -- allowed it.
  pub delete_adapter-Deleted :
      {code : ℕ} {w' : World M D}
      → delete_adapter host state user headers name w ≡ (done code, w')
      → (p : Option String) × (existing : Adapter) × Deletable p existing
        × Deleted p existing code w'
  unfolding delete_adapter
  delete_adapter-Deleted h =
      let ((p, existing), w₁, checked, rest) =
        bind-done (check_delete_adapter host state user headers name) h in
      let (deletable, same) = check_delete_adapter-done checked in
      (p, existing, deletable, remove_adapter-done (rw same at rest))

  store-check_delete_adapter :
      (check_delete_adapter host state user headers name w).1.store ≡ w.store
  unfolding check_delete_adapter
  store-check_delete_adapter = ground arith

  remove_adapter-fail :
      (p : Option String) (existing : Adapter) {e : AppError} {w' : World M D}
      → StoreLaws state.metadata
      → remove_adapter host state user headers name (p, existing) w ≡ (fail e, w')
      → (k : String) → state.metadata.get_adapter k w'.store ≡ state.metadata.get_adapter k w.store
  unfolding remove_adapter
  remove_adapter-fail p existing laws h k =
      elim (Result-cases (state.metadata.delete_adapter name w.store).0) [
        | inl (e', q) ↦ ground (arith, laws.failed-delete_adapter name w.store k e' q)
        | inr (u, q) ↦ ground arith
      ]

  -- With a store that is a map, a deletion that ends in an error, whether the request was refused,
  -- the record missing or stale, or the deployment not torn down, leaves every name's record as it
  -- was, so that the request can be made again.
  pub delete_adapter_failed :
      {e : AppError} {w' : World M D}
      → StoreLaws state.metadata
      → delete_adapter host state user headers name w ≡ (fail e, w')
      → (k : String) → state.metadata.get_adapter k w'.store ≡ state.metadata.get_adapter k w.store
  unfolding delete_adapter
  delete_adapter_failed laws h k =
      elim (bind-fail (check_delete_adapter host state user headers name) h) [
        | inl early ↦ cc (store-check_delete_adapter, ap (λ r. r.1.store) early)
        | inr ((p, existing), w₁, checked, rest) ↦
            let (deletable, same) = check_delete_adapter-done checked in
            remove_adapter-fail p existing laws (rw same at rest) k
      ]
