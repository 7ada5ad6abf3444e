-- ===== src/Gateway/ControlPlane/Tools/Create.antt =====
-- `create_tool`: what a success means, and what a failure leaves behind.
use mcp_oxide.Prelude.{String, Option, none, some, ◌∷◌, eq_iff, ◌≡◌, ap, arith, inl, inr, [], refl}
use mcp_oxide.Core.Error.{ok, AppError, done, fail, Result-cases}
use mcp_oxide.Core.Identity.{UserContext}
use mcp_oxide.Core.Providers.{DeploymentHandle, tool_deployment}
use mcp_oxide.Core.Providers.Laws.{StoreLaws}
use mcp_oxide.Gateway.State.{AppState, World}
use mcp_oxide.Gateway.Handler.{Host, HeaderMap}
use mcp_oxide.Gateway.Handler.Inversion.{bind-done, bind-fail}
use mcp_oxide.Gateway.Validation.Names.{IsDnsLabel, validate_resource_name_iff}
use mcp_oxide.Gateway.ControlPlane.Helpers.{tool, create, etag_for, action_name}
use mcp_oxide.Gateway.ControlPlane.Bodies.{CreateToolBody, ToolResponse, tool_response}
use mcp_oxide.Gateway.ControlPlane.Steps.{Response, allowance}
use mcp_oxide.Gateway.ControlPlane.Tools.{
  request_for, create_tool, check_create_tool, persist_tool, tool_of_body, tool_spec,
}
use mcp_oxide.Text.{format}
use mcp_oxide.Core.Policy.{tool_kind}
use mcp_oxide.Gateway.ControlPlane.Guarantees.{
  Allowed, authorize-Allowed, location_for_sent, Audited, IsPermitted, check_env-IsPermitted,
}
use mcp_oxide.Gateway.ControlPlane.Tools.Registered.{Registered, of_body-Registered}

module _ {V M D : Type 0} (host : Host V) (state : AppState M D) (user : UserContext)
    (headers : HeaderMap V) (body : CreateToolBody) (w : World M D) where
  -- what the checks establish
  pub record Creatable (policy_id : Option String) (location : V) : Type 0 where
    pub allowed : Allowed state.authz user tool_kind "tools.create" body.name body.tags policy_id
    pub named : IsDnsLabel body.name
    pub permitted : IsPermitted body.env
    pub located : host.from_str (format ("/" ∷ "tool" ∷ "s/" ∷ body.name ∷ [])) ≡ some location
    pub absent : state.metadata.get_tool body.name w.store ≡ ok none

  check_create_tool-done :
      {p : Option String} {location : V} {w₁ : World M D}
      → check_create_tool host state user headers body w ≡ (done (p, location), w₁)
      → Creatable p location × (w₁ ≡ w)
  unfolding check_create_tool action_name
  check_create_tool-done h = (
    record {
      allowed = authorize-Allowed state.authz user tool create body.name body.tags (ground arith);
      named = (validate_resource_name_iff body.name).0 (ground arith);
      permitted = check_env-IsPermitted body.env (ground arith);
      located = location_for_sent host tool body.name (ground arith);
      absent = ground arith;
    },
    ground arith,
  )

  -- What a created tool means for the states before and after: the policy `policy_id` allowed
  -- it, its name is a DNS label that was free, and it is stored and deployed;
  -- one audit record says so.
  pub record Created (policy_id : Option String) (location : V) (resp : Response V ToolResponse)
      (w' : World M D) : Type 0 where
    pub put : (state.metadata.put_tool (tool_of_body host.now body) w.store).0 ≡ ok tt
    pub store : w'.store ≡ (state.metadata.put_tool (tool_of_body host.now body) w.store).1
    pub deployed :
        (handle : DeploymentHandle) × ((state.deployment.apply
            (tool_spec (tool_of_body host.now body))
            w.cluster).0
          ≡ ok handle)
    pub cluster :
        w'.cluster ≡ (state.deployment.apply (tool_spec (tool_of_body host.now body)) w.cluster).1
    pub audited : Audited host user headers "tools.create" "tool" body.name policy_id w w'
    pub registered : Registered host.now body (tool_of_body host.now body)
    pub spec : tool_spec (tool_of_body host.now body) ≡ record {
      name = body.name;
      kind = tool_deployment;
      adapter = none;
      tool = some (tool_of_body host.now body);
    }
    pub status : resp.status ≡ 201
    pub etag : etag_for host 1 ≡ resp.etag
    pub location_shown : resp.location ≡ some location
    pub body_shown : resp.body ≡ tool_response host (tool_of_body host.now body)

  persist_tool-done :
      {p : Option String} {location : V} {resp : Response V ToolResponse} {w' : World M D}
      → persist_tool host state user headers body (p, location) w ≡ (done resp, w')
      → Created p location resp w'
  unfolding persist_tool tool_of_body action_name
  persist_tool-done {p} h = record {
    put = ground arith;
    store = ground arith;
    deployed =
        elim (Result-cases
          (state.deployment.apply (tool_spec (tool_of_body host.now body)) w.cluster).0) [
            | inl (e, x) ↦ ground arith
            | inr (handle, x) ↦ (handle, x)
          ];
    cluster = ground arith;
    audited = record {
      entry = allowance (request_for host state user headers create body.name) p;
      added = ground arith;
      decision = refl;
      policy = refl;
      error = refl;
      who = (refl, refl, refl);
      action = refl;
      on = (refl, refl);
      trace = refl;
    };
    registered = of_body-Registered host.now body;
    spec = refl;
    status = ground arith;
    etag = ground arith;
    location_shown = ground arith;
    body_shown = ground arith;
  }

  -- A request that `create_tool` answers with a response was one for which the policy engine,
  -- asked whether the user may do tools.create to that name, decided to allow; its name is a DNS
  -- label that was free, its environment variables are permitted, and its location is a header
  -- value. It is stored with the fields of the request, revision 1 and the time, deployed, shown
  -- with status 201, and one audit record more names the user and the policy that allowed it.
  pub create_tool-Created :
      {resp : Response V ToolResponse} {w' : World M D}
      → create_tool host state user headers body w ≡ (done resp, w')
      → (p : Option String) × (location : V) × Creatable p location × Created p location resp w'
  unfolding create_tool
  create_tool-Created {resp} {w'} h =
      let ((p, location), w₁, checked, rest) =
        bind-done (check_create_tool host state user headers body) h in
      let (creatable, same) = check_create_tool-done checked in
      (p, location, creatable, persist_tool-done (rw same at rest))

  persist_tool-fail :
      (p : Option String) (location : V) {e : AppError} {w' : World M D}
      → StoreLaws state.metadata
      → ((m : M) → (state.metadata.delete_tool body.name m).0 ≡ ok tt)
      → state.metadata.get_tool body.name w.store ≡ ok none
      → persist_tool host state user headers body (p, location) w ≡ (fail e, w')
      → (k : String) → state.metadata.get_tool k w'.store ≡ state.metadata.get_tool k w.store
  unfolding persist_tool tool_of_body
  persist_tool-fail p location laws deletes absent h k =
      let a = tool_of_body host.now body in
      let m = (state.metadata.put_tool a w.store).1 in
      elim (Result-cases (state.metadata.put_tool a w.store).0) [
        | inl (e', q) ↦ ground (arith, laws.failed-put_tool a w.store k e' q)
        | inr (u, q) ↦ ground (
          arith,
          eq_iff body.name k,
          laws.get-put_tool a w.store k q,
          laws.get-delete_tool body.name m k (deletes m),
        )
      ]

  store-check_create_tool : (check_create_tool host state user headers body w).1.store ≡ w.store
  unfolding check_create_tool
  store-check_create_tool = ground arith

  -- With a store that is a map and whose deletions succeed, a request that `create_tool` answers
  -- with an error leaves every name's record as it was: what was persisted before the deployment
  -- failed is taken back.
  pub create_tool_failed :
      {e : AppError} {w' : World M D}
      → StoreLaws state.metadata
      → ((m : M) → (state.metadata.delete_tool body.name m).0 ≡ ok tt)
      → create_tool host state user headers body w ≡ (fail e, w')
      → (k : String) → state.metadata.get_tool k w'.store ≡ state.metadata.get_tool k w.store
  unfolding create_tool
  create_tool_failed laws deletes h k =
      elim (bind-fail (check_create_tool host state user headers body) h) [
        | inl early ↦ cc (store-check_create_tool, ap (λ r. r.1.store) early)
        | inr ((p, location), w₁, checked, rest) ↦
            let (creatable, same) = check_create_tool-done checked in
            persist_tool-fail p location laws deletes creatable.absent (rw same at rest) k
      ]
