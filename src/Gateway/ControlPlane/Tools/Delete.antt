-- ===== src/Gateway/ControlPlane/Tools/Delete.antt =====
-- `delete_tool`: what a success means, and what a failure leaves behind.
use mcp_oxide.Prelude.{ℕ, String, Option, some, [], ◌≡◌, ap, arith, inl, inr, refl}
use mcp_oxide.Core.Error.{ok, AppError, done, fail, Result-cases}
use mcp_oxide.Core.Identity.{UserContext}
use mcp_oxide.Core.Model.{Tool}
use mcp_oxide.Core.Providers.Laws.{StoreLaws}
use mcp_oxide.Gateway.State.{AppState, World}
use mcp_oxide.Gateway.Handler.{Host, HeaderMap}
use mcp_oxide.Gateway.Handler.Inversion.{bind-done, bind-fail}
use mcp_oxide.Gateway.ControlPlane.Helpers.{tool, delete, parse_if_match, handle_for, action_name}
use mcp_oxide.Gateway.ControlPlane.Steps.{allowance}
use mcp_oxide.Gateway.ControlPlane.Tools.{request_for, delete_tool, check_delete_tool, remove_tool}
use mcp_oxide.Core.Policy.{tool_kind}
use mcp_oxide.Gateway.ControlPlane.Guarantees.{
  Allowed, authorize-Allowed, Audited, AsExpected, check_revision-AsExpected, DeletedOrMissing,
  undeployed-DeletedOrMissing,
}

module _ {V M D : Type 0} (host : Host V) (state : AppState M D) (user : UserContext)
    (headers : HeaderMap V) (name : String) (w : World M D) where
  pub record Deletable (policy_id : Option String) (existing : Tool) : Type 0 where
    pub allowed : Allowed state.authz user tool_kind "tools.delete" name [] policy_id
    pub found : state.metadata.get_tool name w.store ≡ ok (some existing)
    pub fresh :
        (rev : Option ℕ) × (parse_if_match host headers ≡ ok rev) × AsExpected rev existing.revision

  check_delete_tool-done :
      {p : Option String} {existing : Tool} {w₁ : World M D}
      → check_delete_tool host state user headers name w ≡ (done (p, existing), w₁)
      → Deletable p existing × (w₁ ≡ w)
  unfolding check_delete_tool action_name
  check_delete_tool-done {existing = existing} h = (
    record {
      allowed = authorize-Allowed state.authz user tool delete name [] (ground arith);
      found = ground arith;
      fresh = elim (Result-cases (parse_if_match host headers)) [
        | inl (e, x) ↦ ground arith
        | inr (rev, x) ↦ (rev, x, check_revision-AsExpected rev existing.revision (ground arith))
      ];
    },
    ground arith,
  )

  pub record Deleted (policy_id : Option String) (existing : Tool) (code : ℕ) (w' : World M D)
      : Type 0 where
    pub torn_down : DeletedOrMissing (state.deployment.delete (handle_for name) w.cluster).0
    pub cluster : w'.cluster ≡ (state.deployment.delete (handle_for name) w.cluster).1
    pub gone : (state.metadata.delete_tool name w.store).0 ≡ ok tt
    pub store : w'.store ≡ (state.metadata.delete_tool name w.store).1
    pub audited : Audited host user headers "tools.delete" "tool" name policy_id w w'
    pub no_content : code ≡ 204

  remove_tool-done :
      {p : Option String} {existing : Tool} {code : ℕ} {w' : World M D}
      → remove_tool host state user headers name (p, existing) w ≡ (done code, w')
      → Deleted p existing code w'
  unfolding remove_tool action_name
  remove_tool-done {p} h = record {
    torn_down =
        undeployed-DeletedOrMissing (state.deployment.delete (handle_for name) w.cluster).0
          (ground arith);
    cluster = ground arith;
    gone = ground arith;
    store = ground arith;
    audited = record {
      entry = allowance (request_for host state user headers delete name) p;
      added = ground arith;
      decision = refl;
      policy = refl;
      error = refl;
      who = (refl, refl, refl);
      action = refl;
      on = (refl, refl);
      trace = refl;
    };
    no_content = ground arith;
  }

  -- A deletion that `delete_tool` answers with 204 was one for which the policy engine decided to
  -- allow tools.delete, of a record that was found and has the revision that If-Match names, if it
  -- names one; its deployment was deleted or reported not found, the record was deleted, and one
  -- audit record more names the user and the policy that allowed it.
  pub delete_tool-Deleted :
      {code : ℕ} {w' : World M D}
      → delete_tool host state user headers name w ≡ (done code, w')
      → (p : Option String) × (existing : Tool) × Deletable p existing × Deleted p existing code w'
  unfolding delete_tool
  delete_tool-Deleted h =
      let ((p, existing), w₁, checked, rest) =
        bind-done (check_delete_tool host state user headers name) h in
      let (deletable, same) = check_delete_tool-done checked in
      (p, existing, deletable, remove_tool-done (rw same at rest))

  store-check_delete_tool : (check_delete_tool host state user headers name w).1.store ≡ w.store
  unfolding check_delete_tool
  store-check_delete_tool = ground arith

  remove_tool-fail :
      (p : Option String) (existing : Tool) {e : AppError} {w' : World M D}
      → StoreLaws state.metadata
      → remove_tool host state user headers name (p, existing) w ≡ (fail e, w')
      → (k : String) → state.metadata.get_tool k w'.store ≡ state.metadata.get_tool k w.store
  unfolding remove_tool
  remove_tool-fail p existing laws h k =
      elim (Result-cases (state.metadata.delete_tool name w.store).0) [
        | inl (e', q) ↦ ground (arith, laws.failed-delete_tool name w.store k e' q)
        | inr (u, q) ↦ ground arith
      ]

  -- With a store that is a map, a deletion that ends in an error, whether the request was refused,
  -- the record missing or stale, or the deployment not torn down, leaves every name's record as it
  -- was, so that the request can be made again.
  pub delete_tool_failed :
      {e : AppError} {w' : World M D}
      → StoreLaws state.metadata
      → delete_tool host state user headers name w ≡ (fail e, w')
      → (k : String) → state.metadata.get_tool k w'.store ≡ state.metadata.get_tool k w.store
  unfolding delete_tool
  delete_tool_failed laws h k =
      elim (bind-fail (check_delete_tool host state user headers name) h) [
        | inl early ↦ cc (store-check_delete_tool, ap (λ r. r.1.store) early)
        | inr ((p, existing), w₁, checked, rest) ↦
            let (deletable, same) = check_delete_tool-done checked in
            remove_tool-fail p existing laws (rw same at rest) k
      ]
