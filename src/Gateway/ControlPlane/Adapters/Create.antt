-- ===== src/Gateway/ControlPlane/Adapters/Create.antt =====
-- `create_adapter`: what a success means, and what a failure leaves behind.
use mcp_oxide.Prelude.{
  String, Option, none, some, ◌∷◌, eq_iff, ◌≡◌, ap, arith, is_none, is_some, Bool-cases, true, ◌⊎◌,
  if◌then◌else◌, inl, inr, [], refl,
}
use mcp_oxide.Core.Error.{ok, AppError, done, fail, Result-cases}
use mcp_oxide.Core.Identity.{UserContext}
use mcp_oxide.Core.Providers.{DeploymentHandle, adapter_deployment}
use mcp_oxide.Core.Providers.Laws.{StoreLaws}
use mcp_oxide.Gateway.State.{AppState, World}
use mcp_oxide.Gateway.Handler.{Host, HeaderMap}
use mcp_oxide.Gateway.Handler.Inversion.{bind-done, bind-fail}
use mcp_oxide.Gateway.Validation.Names.{IsDnsLabel, validate_resource_name_iff}
use mcp_oxide.Gateway.ControlPlane.Helpers.{adapter, create, etag_for, action_name}
use mcp_oxide.Gateway.ControlPlane.Bodies.{CreateAdapterBody, AdapterResponse, adapter_response}
use mcp_oxide.Gateway.ControlPlane.Steps.{Response, allowance}
use mcp_oxide.Gateway.ControlPlane.Adapters.{
  request_for, create_adapter, check_create_adapter, persist_adapter, adapter_of_body, adapter_spec,
}
use mcp_oxide.Text.{format}
use mcp_oxide.Core.Policy.{adapter_kind}
use mcp_oxide.Gateway.ControlPlane.Guarantees.{
  Allowed, authorize-Allowed, location_for_sent, Audited, IsPermitted, check_env-IsPermitted,
}
use mcp_oxide.Gateway.ControlPlane.Adapters.Registered.{Registered, of_body-Registered}

module _ {V M D : Type 0} (host : Host V) (state : AppState M D) (user : UserContext)
    (headers : HeaderMap V) (body : CreateAdapterBody) (w : World M D) where
  -- what the checks establish
  pub record Creatable (policy_id : Option String) (location : V) : Type 0 where
    pub allowed :
        Allowed state.authz user adapter_kind "adapters.create" body.name body.tags policy_id
    pub named : IsDnsLabel body.name
    pub permitted : IsPermitted body.env
    pub located : host.from_str (format ("/" ∷ "adapter" ∷ "s/" ∷ body.name ∷ [])) ≡ some location
    pub absent : state.metadata.get_adapter body.name w.store ≡ ok none

  check_create_adapter-done :
      {p : Option String} {location : V} {w₁ : World M D}
      → check_create_adapter host state user headers body w ≡ (done (p, location), w₁)
      → Creatable p location × (w₁ ≡ w)
  unfolding check_create_adapter action_name
  check_create_adapter-done h = (
    record {
      allowed =
          authorize-Allowed state.authz user adapter create body.name body.tags (ground arith);
      named = (validate_resource_name_iff body.name).0 (ground arith);
      permitted = check_env-IsPermitted body.env (ground arith);
      located = location_for_sent host adapter body.name (ground arith);
      absent = ground arith;
    },
    ground arith,
  )

  -- What a created adapter means for the states before and after: the policy `policy_id` allowed
  -- it, its name is a DNS label that was free, and it is stored and, unless it has an upstream of
  -- its own, deployed; one audit record says so.
  pub record Created (policy_id : Option String) (location : V) (resp : Response V AdapterResponse)
      (w' : World M D) : Type 0 where
    pub put : (state.metadata.put_adapter (adapter_of_body host.now body) w.store).0 ≡ ok tt
    pub store : w'.store ≡ (state.metadata.put_adapter (adapter_of_body host.now body) w.store).1
    pub deployed :
        (is_some body.upstream ≡ true)
        ⊎ ((handle : DeploymentHandle) × ((state.deployment.apply
                (adapter_spec (adapter_of_body host.now body))
                w.cluster).0
              ≡ ok handle))
    pub cluster : w'.cluster ≡ (
        if is_none body.upstream
        then (state.deployment.apply (adapter_spec (adapter_of_body host.now body)) w.cluster).1
        else w.cluster)
    pub audited : Audited host user headers "adapters.create" "adapter" body.name policy_id w w'
    pub registered : Registered host.now body (adapter_of_body host.now body)
    pub spec : adapter_spec (adapter_of_body host.now body) ≡ record {
      name = body.name;
      kind = adapter_deployment;
      adapter = some (adapter_of_body host.now body);
      tool = none;
    }
    pub status : resp.status ≡ 201
    pub etag : etag_for host 1 ≡ resp.etag
    pub location_shown : resp.location ≡ some location
    pub body_shown : resp.body ≡ adapter_response host (adapter_of_body host.now body)

  persist_adapter-done :
      {p : Option String} {location : V} {resp : Response V AdapterResponse} {w' : World M D}
      → persist_adapter host state user headers body (p, location) w ≡ (done resp, w')
      → Created p location resp w'
  unfolding persist_adapter adapter_of_body action_name
  persist_adapter-done {p} h = record {
    put = ground arith;
    store = ground arith;
    deployed = elim (Bool-cases (is_some body.upstream)) [
      | inl y ↦ inl y
      | inr n ↦
          elim (Result-cases
            (state.deployment.apply (adapter_spec (adapter_of_body host.now body)) w.cluster).0) [
              | inl (e, x) ↦ ground arith
              | inr (handle, x) ↦ inr (handle, x)
            ]
    ];
    cluster = ground arith;
    audited = record {
      entry = allowance (request_for host state user headers create body.name) p;
      added = ground arith;
      decision = refl;
      policy = refl;
      error = refl;
      who = (refl, refl, refl);
      action = refl;
      on = (refl, refl);
      trace = refl;
    };
    registered = of_body-Registered host.now body;
    spec = refl;
    status = ground arith;
    etag = ground arith;
    location_shown = ground arith;
    body_shown = ground arith;
  }

  -- A request that `create_adapter` answers with a response was one for which the policy engine,
  -- asked whether the user may do adapters.create to that name, decided to allow; its name is a
  -- DNS label that was free, its environment variables are permitted, and its location is a header
  -- value. It is stored with the fields of the request, revision 1 and the time, deployed unless
  -- it has an upstream, shown with status 201, and one audit record more names the user and the
  -- policy that allowed it.
  pub create_adapter-Created :
      {resp : Response V AdapterResponse} {w' : World M D}
      → create_adapter host state user headers body w ≡ (done resp, w')
      → (p : Option String) × (location : V) × Creatable p location × Created p location resp w'
  unfolding create_adapter
  create_adapter-Created {resp} {w'} h =
      let ((p, location), w₁, checked, rest) =
        bind-done (check_create_adapter host state user headers body) h in
      let (creatable, same) = check_create_adapter-done checked in
      (p, location, creatable, persist_adapter-done (rw same at rest))

  persist_adapter-fail :
      (p : Option String) (location : V) {e : AppError} {w' : World M D}
      → StoreLaws state.metadata
      → ((m : M) → (state.metadata.delete_adapter body.name m).0 ≡ ok tt)
      → state.metadata.get_adapter body.name w.store ≡ ok none
      → persist_adapter host state user headers body (p, location) w ≡ (fail e, w')
      → (k : String) → state.metadata.get_adapter k w'.store ≡ state.metadata.get_adapter k w.store
  unfolding persist_adapter adapter_of_body
  persist_adapter-fail p location laws deletes absent h k =
      let a = adapter_of_body host.now body in
      let m = (state.metadata.put_adapter a w.store).1 in
      elim (Result-cases (state.metadata.put_adapter a w.store).0) [
        | inl (e', q) ↦ ground (arith, laws.failed-put_adapter a w.store k e' q)
        | inr (u, q) ↦ ground (
          arith,
          eq_iff body.name k,
          laws.get-put_adapter a w.store k q,
          laws.get-delete_adapter body.name m k (deletes m),
        )
      ]

  store-check_create_adapter :
      (check_create_adapter host state user headers body w).1.store ≡ w.store
  unfolding check_create_adapter
  store-check_create_adapter = ground arith

  -- With a store that is a map and whose deletions succeed, a request that `create_adapter` answers
  -- with an error leaves every name's record as it was: what was persisted before the deployment
  -- failed is taken back.
  pub create_adapter_failed :
      {e : AppError} {w' : World M D}
      → StoreLaws state.metadata
      → ((m : M) → (state.metadata.delete_adapter body.name m).0 ≡ ok tt)
      → create_adapter host state user headers body w ≡ (fail e, w')
      → (k : String) → state.metadata.get_adapter k w'.store ≡ state.metadata.get_adapter k w.store
  unfolding create_adapter
  create_adapter_failed laws deletes h k =
      elim (bind-fail (check_create_adapter host state user headers body) h) [
        | inl early ↦ cc (store-check_create_adapter, ap (λ r. r.1.store) early)
        | inr ((p, location), w₁, checked, rest) ↦
            let (creatable, same) = check_create_adapter-done checked in
            persist_adapter-fail p location laws deletes creatable.absent (rw same at rest) k
      ]
