-- ===== src/Gateway/ControlPlane/Tools/Update.antt =====
-- `update_tool`: what a success means, stale revisions, and when the deployment is touched.
use mcp_oxide.Prelude.{
  ℕ, String, Bool, Option, some, [], ◌∷◌, ◌≡◌, arith, or_else, if◌then◌else◌, inl, inr, false, true,
  sym, ◌∙◌, ◌+◌, ◌%◌, ◌^◌, none, unwrap_or, refl, ◌⊎◌, Bool-cases,
}
use mcp_oxide.Core.Error.{ok, done, Result-cases}
use mcp_oxide.Core.Identity.{UserContext}
use mcp_oxide.Core.Model.{Tool}
use mcp_oxide.Gateway.State.{AppState, World}
use mcp_oxide.Gateway.Handler.{Host, HeaderMap}
use mcp_oxide.Gateway.Handler.Inversion.{bind-done}
use mcp_oxide.Gateway.ControlPlane.Helpers.{tool, update, etag_for, parse_if_match, action_name}
use mcp_oxide.Gateway.ControlPlane.Bodies.{UpdateToolBody, ToolResponse, tool_response}
use mcp_oxide.Gateway.ControlPlane.Steps.{Response, allowance, next_revision}
use mcp_oxide.Gateway.ControlPlane.Tools.{
  request_for, update_tool, check_update_tool, rewrite_tool, changed_tool, bumped_tool, tool_spec,
  tool_deployment_changed,
}
use mcp_oxide.Core.Policy.{tool_kind}
use mcp_oxide.Core.Providers.{tool_deployment, DeploymentHandle}
use mcp_oxide.Gateway.ControlPlane.Tools.Redeploy.{SameDeployment, tool_deployment_changed_iff}
use mcp_oxide.Gateway.ControlPlane.Guarantees.{
  Allowed, authorize-Allowed, Audited, IsPermittedOption, check_env_option-IsPermitted, AsExpected,
  check_revision-AsExpected,
}
use mcp_oxide.Gateway.ControlPlane.Tools.Revised.{Revised, updated-Revised}

module _ {V M D : Type 0} (host : Host V) (state : AppState M D) (user : UserContext)
    (headers : HeaderMap V) (name : String) (body : UpdateToolBody) (w : World M D) where
  -- the tool that a success stores, from the one that it found
  abbrev pub updated : Tool → Tool
  updated prev = bumped_tool host.now (changed_tool body prev)

  abbrev redeploys : Tool → Bool
  redeploys prev = tool_deployment_changed prev (changed_tool body prev)

  -- what the checks establish of the record `prev` that was found
  pub record Updatable (policy_id : Option String) (prev : Tool) : Type 0 where
    pub allowed : Allowed state.authz user tool_kind "tools.update" name [] policy_id
    pub permitted : IsPermittedOption body.env
    pub found : state.metadata.get_tool name w.store ≡ ok (some prev)
    pub fresh :
        (header_rev : Option ℕ) × (parse_if_match host headers ≡ ok header_rev)
        × AsExpected (or_else header_rev body.revision) prev.revision

  check_update_tool-done :
      {p : Option String} {prev : Tool} {w₁ : World M D}
      → check_update_tool host state user headers name body w ≡ (done (p, prev), w₁)
      → Updatable p prev × (w₁ ≡ w)
  unfolding check_update_tool action_name
  check_update_tool-done {prev = prev} h = (
    record {
      allowed = authorize-Allowed state.authz user tool update name [] (ground arith);
      permitted = check_env_option-IsPermitted body.env (ground arith);
      found = ground arith;
      fresh = elim (Result-cases (parse_if_match host headers)) [
        | inl (e, x) ↦ ground arith
        | inr (rev, x) ↦ (
          rev,
          x,
          check_revision-AsExpected (or_else rev body.revision) prev.revision (ground arith),
        )
      ];
    },
    ground arith,
  )

  -- The deployment was renewed, which is for a difference, or it was left alone.
  abbrev pub Redeployed : Tool → World M D → Type 0
  Redeployed prev w' =
      (((¬ SameDeployment prev (updated prev))
        × ((handle : DeploymentHandle) × ((state.deployment.apply (tool_spec (updated prev))
                w.cluster).0
              ≡ ok handle))
        × (w'.cluster ≡ (state.deployment.apply (tool_spec (updated prev)) w.cluster).1)))
      ⊎ ((SameDeployment prev (updated prev)) × (w'.cluster ≡ w.cluster))

  pub record Updated (policy_id : Option String) (prev : Tool) (resp : Response V ToolResponse)
      (w' : World M D) : Type 0 where
    pub put : (state.metadata.put_tool (updated prev) w.store).0 ≡ ok tt
    pub store : w'.store ≡ (state.metadata.put_tool (updated prev) w.store).1
    pub revised : Revised host.now body prev (updated prev)
    pub redeployed : Redeployed prev w'
    pub spec : tool_spec (updated prev) ≡ record {
      name = prev.name;
      kind = tool_deployment;
      adapter = none;
      tool = some (updated prev);
    }
    pub audited : Audited host user headers "tools.update" "tool" name policy_id w w'
    pub status : resp.status ≡ 200
    pub etag : etag_for host ((unwrap_or 0 prev.revision + 1) % 2 ^ 64) ≡ resp.etag
    pub body_shown : resp.body ≡ tool_response host (updated prev)

  -- the run of `rewrite_tool`, in the terms of its code
  record Ran (policy_id : Option String) (prev : Tool) (resp : Response V ToolResponse)
      (w' : World M D) : Type 0 where
    pub put : (state.metadata.put_tool (updated prev) w.store).0 ≡ ok tt
    pub store : w'.store ≡ (state.metadata.put_tool (updated prev) w.store).1
    pub applied :
        (redeploys prev ≡ false)
        ⊎ ((handle : DeploymentHandle) × ((state.deployment.apply
                (tool_spec (updated prev))
                w.cluster).0
              ≡ ok handle))
    pub cluster : w'.cluster ≡ (
        if redeploys prev
        then (state.deployment.apply (tool_spec (updated prev)) w.cluster).1
        else w.cluster)
    pub audit :
        w'.audit ≡ allowance (request_for host state user headers update name) policy_id ∷ w.audit
    pub status : resp.status ≡ 200
    pub etag : etag_for host (next_revision prev.revision) ≡ resp.etag
    pub body_shown : resp.body ≡ tool_response host (updated prev)

  rewrite_tool-Ran :
      {p : Option String} {prev : Tool} {resp : Response V ToolResponse} {w' : World M D}
      → rewrite_tool host state user headers name body (p, prev) w ≡ (done resp, w')
      → Ran p prev resp w'
  unfolding rewrite_tool
  rewrite_tool-Ran {p} {prev} h = record {
    put = ground arith;
    store = ground arith;
    applied = elim (Result-cases (state.deployment.apply (tool_spec (updated prev)) w.cluster).0) [
      | inl (e, x) ↦ inl (ground arith)
      | inr (handle, x) ↦ inr (handle, x)
    ];
    cluster = ground arith;
    audit = ground arith;
    status = ground arith;
    etag = ground arith;
    body_shown = ground arith;
  }

  changed_Redeployed :
      (prev : Tool) (w' : World M D) {handle : DeploymentHandle}
      → tool_deployment_changed prev (updated prev) ≡ true
      → (state.deployment.apply (tool_spec (updated prev)) w.cluster).0 ≡ ok handle
      → w'.cluster ≡ (state.deployment.apply (tool_spec (updated prev)) w.cluster).1
      → Redeployed prev w'
  changed_Redeployed prev w' {handle} changes ran same = inl (
    λ s. cc ((tool_deployment_changed_iff prev (updated prev)).1 s, changes),
    (handle, ran),
    same,
  )

  changed-updated :
      (prev : Tool)
      → tool_deployment_changed prev (updated prev)
        ≡ tool_deployment_changed prev (changed_tool body prev)
  unfolding bumped_tool tool_deployment_changed
  changed-updated prev = refl

  -- a deployment that is due was answered with a handle
  applied_of :
      {p : Option String} {prev : Tool} {resp : Response V ToolResponse} {w' : World M D}
      → Ran p prev resp w'
      → redeploys prev ≡ true
      → (handle : DeploymentHandle) × ((state.deployment.apply
            (tool_spec (updated prev))
            w.cluster).0
          ≡ ok handle)
  applied_of r on = elim r.applied [ inl off ↦ absurd (cc (on, off)) | inr applied ↦ applied ]

  Ran-Redeployed :
      {p : Option String} {prev : Tool} {resp : Response V ToolResponse} {w' : World M D}
      → Ran p prev resp w'
      → Redeployed prev w'
  Ran-Redeployed {p} {prev} {resp} {w'} r =
      elim (Bool-cases (tool_deployment_changed prev (updated prev))) [
        | inr keeps ↦
            let kept = sym (changed-updated prev) ∙ keeps in
            let off : redeploys prev ≡ false = rw kept refl in
            inr (((tool_deployment_changed_iff prev (updated prev)).0 keeps), rw off at r.cluster)
        | inl changes ↦
            let altered = sym (changed-updated prev) ∙ changes in
            let on : redeploys prev ≡ true = altered in
            let (handle, ran) = applied_of r on in
            changed_Redeployed prev w' changes ran (rw on at r.cluster)
      ]

  rewrite_tool-done :
      {p : Option String} {prev : Tool} {resp : Response V ToolResponse} {w' : World M D}
      → rewrite_tool host state user headers name body (p, prev) w ≡ (done resp, w')
      → Updated p prev resp w'
  unfolding bumped_tool changed_tool action_name
  rewrite_tool-done {p} {prev} h =
      let r = rewrite_tool-Ran h in
      record {
        put = r.put;
        store = r.store;
        revised = updated-Revised host.now body prev;
        redeployed = Ran-Redeployed r;
        spec = refl;
        audited = record {
          entry = allowance (request_for host state user headers update name) p;
          added = r.audit;
          decision = refl;
          policy = refl;
          error = refl;
          who = (refl, refl, refl);
          action = refl;
          on = (refl, refl);
          trace = refl;
        };
        status = r.status;
        etag = r.etag;
        body_shown = r.body_shown;
      }

  -- A request that `update_tool` answers with a response was one for which the policy engine
  -- decided to allow tools.update, with permitted environment variables, of a record that was
  -- found and has the revision that If-Match, or else the body, names, if either does. What is
  -- stored has the fields that the body gives, the others kept, and the next revision in a u64; it
  -- is deployed again if a field differs that the container depends on, and otherwise the
  -- deployment is left alone. One audit record more names the user and the policy that allowed it.
  pub update_tool-Updated :
      {resp : Response V ToolResponse} {w' : World M D}
      → update_tool host state user headers name body w ≡ (done resp, w')
      → (p : Option String) × (prev : Tool) × Updatable p prev × Updated p prev resp w'
  unfolding update_tool
  update_tool-Updated {resp} {w'} h =
      let ((p, prev), w₁, checked, rest) =
        bind-done (check_update_tool host state user headers name body) h in
      let (updatable, same) = check_update_tool-done checked in
      (p, prev, updatable, rewrite_tool-done (rw same at rest))
