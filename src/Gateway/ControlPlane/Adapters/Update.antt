-- ===== src/Gateway/ControlPlane/Adapters/Update.antt =====
-- `update_adapter`: what a success means, stale revisions, and when the deployment is touched.
use mcp_oxide.Prelude.{
  ℕ, String, Bool, ◌&&◌, Option, some, [], ◌∷◌, ◌≡◌, arith, is_none, or_else, if◌then◌else◌, inl,
  inr, false, true, sym, ◌∙◌, ◌+◌, ◌%◌, ◌^◌, none, unwrap_or, refl, ◌⊎◌, ◌≢◌, Option-cases,
  Bool-cases,
}
use mcp_oxide.Core.Error.{ok, done, Result-cases}
use mcp_oxide.Core.Identity.{UserContext}
use mcp_oxide.Core.Model.{Adapter}
use mcp_oxide.Gateway.State.{AppState, World}
use mcp_oxide.Gateway.Handler.{Host, HeaderMap}
use mcp_oxide.Gateway.Handler.Inversion.{bind-done}
use mcp_oxide.Gateway.ControlPlane.Helpers.{adapter, update, etag_for, parse_if_match, action_name}
use mcp_oxide.Gateway.ControlPlane.Bodies.{UpdateAdapterBody, AdapterResponse, adapter_response}
use mcp_oxide.Gateway.ControlPlane.Steps.{Response, allowance, next_revision}
use mcp_oxide.Gateway.ControlPlane.Adapters.{
  request_for, update_adapter, check_update_adapter, rewrite_adapter, changed_adapter,
  bumped_adapter, adapter_spec, adapter_deployment_changed,
}
use mcp_oxide.Core.Policy.{adapter_kind}
use mcp_oxide.Core.Providers.{adapter_deployment, DeploymentHandle}
use mcp_oxide.Gateway.ControlPlane.Adapters.Redeploy.{
  SameDeployment, adapter_deployment_changed_iff,
}
use mcp_oxide.Gateway.ControlPlane.Guarantees.{
  Allowed, authorize-Allowed, Audited, IsPermittedOption, check_env_option-IsPermitted, AsExpected,
  check_revision-AsExpected,
}
use mcp_oxide.Gateway.ControlPlane.Adapters.Revised.{Revised, updated-Revised}

module _ {V M D : Type 0} (host : Host V) (state : AppState M D) (user : UserContext)
    (headers : HeaderMap V) (name : String) (body : UpdateAdapterBody) (w : World M D) where
  -- the adapter that a success stores, from the one that it found
  abbrev pub updated : Adapter → Adapter
  updated prev = bumped_adapter host.now (changed_adapter body prev)

  abbrev redeploys : Adapter → Bool
  redeploys prev =
      adapter_deployment_changed prev (changed_adapter body prev) && is_none (updated prev).upstream

  -- what the checks establish of the record `prev` that was found
  pub record Updatable (policy_id : Option String) (prev : Adapter) : Type 0 where
    pub allowed : Allowed state.authz user adapter_kind "adapters.update" name [] policy_id
    pub permitted : IsPermittedOption body.env
    pub found : state.metadata.get_adapter name w.store ≡ ok (some prev)
    pub fresh :
        (header_rev : Option ℕ) × (parse_if_match host headers ≡ ok header_rev)
        × AsExpected (or_else header_rev body.revision) prev.revision

  check_update_adapter-done :
      {p : Option String} {prev : Adapter} {w₁ : World M D}
      → check_update_adapter host state user headers name body w ≡ (done (p, prev), w₁)
      → Updatable p prev × (w₁ ≡ w)
  unfolding check_update_adapter action_name
  check_update_adapter-done {prev = prev} h = (
    record {
      allowed = authorize-Allowed state.authz user adapter update name [] (ground arith);
      permitted = check_env_option-IsPermitted body.env (ground arith);
      found = ground arith;
      fresh = elim (Result-cases (parse_if_match host headers)) [
        | inl (e, x) ↦ ground arith
        | inr (rev, x) ↦ (
          rev,
          x,
          check_revision-AsExpected (or_else rev body.revision) prev.revision (ground arith),
        )
      ];
    },
    ground arith,
  )

  -- The deployment was renewed, which is for a difference where there is no upstream, or it was
  -- left alone, which is for the rest.
  abbrev pub Redeployed : Adapter → World M D → Type 0
  Redeployed prev w' =
      ((((updated prev).upstream ≡ none)
        × (¬ SameDeployment prev (updated prev))
        × ((handle : DeploymentHandle) × ((state.deployment.apply (adapter_spec (updated prev))
                w.cluster).0
              ≡ ok handle))
        × (w'.cluster ≡ (state.deployment.apply (adapter_spec (updated prev)) w.cluster).1)))
      ⊎ ((((updated prev).upstream ≢ none) ⊎ SameDeployment prev (updated prev))
          × (w'.cluster ≡ w.cluster))

  pub record Updated (policy_id : Option String) (prev : Adapter)
      (resp : Response V AdapterResponse) (w' : World M D) : Type 0 where
    pub put : (state.metadata.put_adapter (updated prev) w.store).0 ≡ ok tt
    pub store : w'.store ≡ (state.metadata.put_adapter (updated prev) w.store).1
    pub revised : Revised host.now body prev (updated prev)
    pub redeployed : Redeployed prev w'
    pub spec : adapter_spec (updated prev) ≡ record {
      name = prev.name;
      kind = adapter_deployment;
      adapter = some (updated prev);
      tool = none;
    }
    pub audited : Audited host user headers "adapters.update" "adapter" name policy_id w w'
    pub status : resp.status ≡ 200
    pub etag : etag_for host ((unwrap_or 0 prev.revision + 1) % 2 ^ 64) ≡ resp.etag
    pub body_shown : resp.body ≡ adapter_response host (updated prev)

  -- the run of `rewrite_adapter`, in the terms of its code
  record Ran (policy_id : Option String) (prev : Adapter) (resp : Response V AdapterResponse)
      (w' : World M D) : Type 0 where
    pub put : (state.metadata.put_adapter (updated prev) w.store).0 ≡ ok tt
    pub store : w'.store ≡ (state.metadata.put_adapter (updated prev) w.store).1
    pub applied :
        (redeploys prev ≡ false)
        ⊎ ((handle : DeploymentHandle) × ((state.deployment.apply
                (adapter_spec (updated prev))
                w.cluster).0
              ≡ ok handle))
    pub cluster : w'.cluster ≡ (
        if redeploys prev
        then (state.deployment.apply (adapter_spec (updated prev)) w.cluster).1
        else w.cluster)
    pub audit :
        w'.audit ≡ allowance (request_for host state user headers update name) policy_id ∷ w.audit
    pub status : resp.status ≡ 200
    pub etag : etag_for host (next_revision prev.revision) ≡ resp.etag
    pub body_shown : resp.body ≡ adapter_response host (updated prev)

  rewrite_adapter-Ran :
      {p : Option String} {prev : Adapter} {resp : Response V AdapterResponse} {w' : World M D}
      → rewrite_adapter host state user headers name body (p, prev) w ≡ (done resp, w')
      → Ran p prev resp w'
  unfolding rewrite_adapter
  rewrite_adapter-Ran {p} {prev} h = record {
    put = ground arith;
    store = ground arith;
    applied =
        elim (Result-cases (state.deployment.apply (adapter_spec (updated prev)) w.cluster).0) [
          | inl (e, x) ↦ inl (ground arith)
          | inr (handle, x) ↦ inr (handle, x)
        ];
    cluster = ground arith;
    audit = ground arith;
    status = ground arith;
    etag = ground arith;
    body_shown = ground arith;
  }

  changed_Redeployed :
      (prev : Adapter) (w' : World M D) {handle : DeploymentHandle}
      → adapter_deployment_changed prev (updated prev) ≡ true
      → (updated prev).upstream ≡ none
      → (state.deployment.apply (adapter_spec (updated prev)) w.cluster).0 ≡ ok handle
      → w'.cluster ≡ (state.deployment.apply (adapter_spec (updated prev)) w.cluster).1
      → Redeployed prev w'
  changed_Redeployed prev w' {handle} changes u ran same = inl (
    u,
    λ s. cc ((adapter_deployment_changed_iff prev (updated prev)).1 s, changes),
    (handle, ran),
    same,
  )

  changed-updated :
      (prev : Adapter)
      → adapter_deployment_changed prev (updated prev)
        ≡ adapter_deployment_changed prev (changed_adapter body prev)
  unfolding bumped_adapter adapter_deployment_changed
  changed-updated prev = refl

  -- a deployment that is due was answered with a handle
  applied_of :
      {p : Option String} {prev : Adapter} {resp : Response V AdapterResponse} {w' : World M D}
      → Ran p prev resp w'
      → redeploys prev ≡ true
      → (handle : DeploymentHandle) × ((state.deployment.apply
            (adapter_spec (updated prev))
            w.cluster).0
          ≡ ok handle)
  applied_of r on = elim r.applied [ inl off ↦ absurd (cc (on, off)) | inr applied ↦ applied ]

  Ran-Redeployed :
      {p : Option String} {prev : Adapter} {resp : Response V AdapterResponse} {w' : World M D}
      → Ran p prev resp w'
      → Redeployed prev w'
  Ran-Redeployed {p} {prev} {resp} {w'} r =
      elim (Bool-cases (adapter_deployment_changed prev (updated prev))) [
        | inr keeps ↦
            let kept = sym (changed-updated prev) ∙ keeps in
            let off : redeploys prev ≡ false = rw kept refl in
            inr (
              inr ((adapter_deployment_changed_iff prev (updated prev)).0 keeps),
              rw off at r.cluster,
            )
        | inl changes ↦
            let altered = sym (changed-updated prev) ∙ changes in
            elim (Option-cases (updated prev).upstream) [
              | inr (url, u) ↦
                  let off : redeploys prev ≡ false = rw (altered, u) refl in
                  inr (inl (λ n. cc), rw off at r.cluster)
              | inl u ↦
                  let on : redeploys prev ≡ true = rw (altered, u) refl in
                  let (handle, ran) = applied_of r on in
                  changed_Redeployed prev w' changes u ran (rw on at r.cluster)
            ]
      ]

  rewrite_adapter-done :
      {p : Option String} {prev : Adapter} {resp : Response V AdapterResponse} {w' : World M D}
      → rewrite_adapter host state user headers name body (p, prev) w ≡ (done resp, w')
      → Updated p prev resp w'
  unfolding bumped_adapter changed_adapter action_name
  rewrite_adapter-done {p} {prev} h =
      let r = rewrite_adapter-Ran h in
      record {
        put = r.put;
        store = r.store;
        revised = updated-Revised host.now body prev;
        redeployed = Ran-Redeployed r;
        spec = refl;
        audited = record {
          entry = allowance (request_for host state user headers update name) p;
          added = r.audit;
          decision = refl;
          policy = refl;
          error = refl;
          who = (refl, refl, refl);
          action = refl;
          on = (refl, refl);
          trace = refl;
        };
        status = r.status;
        etag = r.etag;
        body_shown = r.body_shown;
      }

  -- A request that `update_adapter` answers with a response was one for which the policy engine
  -- decided to allow adapters.update, with permitted environment variables, of a record that was
  -- found and has the revision that If-Match, or else the body, names, if either does. What is
  -- stored has the fields that the body gives, the others kept, and the next revision in a u64; it
  -- is deployed again if it has no upstream and a field differs that the container depends on, and
  -- otherwise the deployment is left alone. One audit record more names the user and the policy
  -- that allowed it.
  pub update_adapter-Updated :
      {resp : Response V AdapterResponse} {w' : World M D}
      → update_adapter host state user headers name body w ≡ (done resp, w')
      → (p : Option String) × (prev : Adapter) × Updatable p prev × Updated p prev resp w'
  unfolding update_adapter
  update_adapter-Updated {resp} {w'} h =
      let ((p, prev), w₁, checked, rest) =
        bind-done (check_update_adapter host state user headers name body) h in
      let (updatable, same) = check_update_adapter-done checked in
      (p, prev, updatable, rewrite_adapter-done (rw same at rest))
