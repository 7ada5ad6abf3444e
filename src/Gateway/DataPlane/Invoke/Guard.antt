-- ===== src/Gateway/DataPlane/Invoke/Guard.antt =====
-- What stands behind a forwarded request, and what every request leaves behind.
use mcp_oxide.Prelude.{
  String, true, Option, none, some, List, [], ◌∷◌, ◌≡◌, ◌⊎◌, inl, inr, refl, Option-cases,
  Bool-cases,
}
use mcp_oxide.Core.Error.{Error, Result, ok, err, Outcome, done, Result-cases}
use mcp_oxide.Core.Json.{Json}
use mcp_oxide.Core.Identity.{UserContext}
use mcp_oxide.Text.{format}
use mcp_oxide.Core.Policy.{data_plane, adapter_kind, Decision}
use mcp_oxide.Core.Audit.{allow, AuditRecord}
use mcp_oxide.Gateway.State.{AppState, World, ResolvedAdapter, resolve_adapter}
use mcp_oxide.Gateway.Handler.{Host, ◌>>=◌, ◌>>◌}
use mcp_oxide.Gateway.DataPlane.Helpers.{required_roles_satisfied, data_input}
use mcp_oxide.Gateway.DataPlane.Helpers.Access.{RolesMet}
use mcp_oxide.Gateway.DataPlane.Proxy.{
  Wire, ProxyError, unavailable, timeout, ProxyOutcome, ProxyResponse, forwardable_headers,
  forward_post,
}
use mcp_oxide.Gateway.DataPlane.Invoke.{
  DataReply, refused, status_label, millis, method_of_body, decided, found_adapter, invoke,
}

post_cases :
    {A : Type 0} (r : Result ProxyError A)
    → ((a : A) × (r ≡ ok a))
      ⊎ ((m : String) × (r ≡ err (timeout m)))
      ⊎ ((m : String) × (r ≡ err (unavailable m)))
post_cases (ok a) = inl (a, refl)
post_cases (err (timeout m)) = inr (inl (m, refl))
post_cases (err (unavailable m)) = inr (inr (m, refl))

module _ {V M D B : Type 0} (host : Host V) (wire : Wire V B) (from_slice : B → Option Json)
    (state : AppState M D) (user : UserContext) (trace_id : String) (headers : List (String × V))
    (body : B) (name : String) (w : World M D) where
  -- the policy engine's answer for an adapter
  abbrev pub judgement : ResolvedAdapter → Result Error Decision
  judgement a = state.authz.decide (
      data_input user (method_of_body host wire from_slice state user trace_id headers body) none
        adapter_kind a.name a.tags a.required_roles)

  pub record Forwarded (a : ResolvedAdapter) (d : Decision) (outcome : ProxyOutcome)
      (response : ProxyResponse V B) (w' : World M D) : Type 0 where
    pub resolved : resolve_adapter state w name ≡ ok (some a)
    pub decision : judgement a ≡ ok d
    pub allowed : d.allow ≡ true
    pub roles : RolesMet a.required_roles user.roles
    pub sent :
        forward_post wire a.upstream (forwardable_headers headers) body ≡ ok (response, outcome)
    pub audited : w' ≡ record w {
      audit =
          record {
            ts = host.timestamp;
            trace_id = trace_id;
            user = record { sub = user.sub; tenant = user.tenant; roles = user.roles };
            plane = data_plane;
            action = method_of_body host wire from_slice state user trace_id headers body;
            target = record { kind = "adapter"; name = a.name };
            decision = allow;
            policy_id = d.policy_id;
            latency_ms = millis outcome;
            upstream_status = status_label outcome;
            request_hash = format ("sha256:" ∷ wire.sha256_hex body ∷ []);
            error = none;
          }
          ∷ w.audit;
    }

  -- an answer that left one audit record more
  pub record Answered (run : Outcome (DataReply V B) × World M D) : Type 0 where
    pub reply : DataReply V B
    pub returned : run.0 ≡ done reply
    pub store : run.1.store ≡ w.store
    pub cluster : run.1.cluster ≡ w.cluster
    pub record_left : AuditRecord
    pub audit : run.1.audit ≡ record_left ∷ w.audit

  answered :
      (reply : DataReply V B) (r : AuditRecord)
      → Answered (done reply, record w { audit = r ∷ w.audit })
  answered reply r = record {
    reply = reply;
    returned = refl;
    store = refl;
    cluster = refl;
    record_left = r;
    audit = refl;
  }

  decided-Answered :
      (a : ResolvedAdapter) (answer : Result Error Decision)
      → Answered (decided host wire from_slice state user trace_id headers body a answer w)
  unfolding decided ◌>>=◌ ◌>>◌
  decided-Answered a (err e) = answered _ _
  decided-Answered a (ok d) = elim (Bool-cases d.allow) [
    | inr denies ↦ rw denies (answered _ _)
    | inl allows ↦ elim (Bool-cases (required_roles_satisfied a.required_roles user.roles)) [
      | inr unmet ↦ rw (allows, unmet) (answered _ _)
      | inl met ↦
          elim (post_cases (forward_post wire a.upstream (forwardable_headers headers) body)) [
            | inl (reply, y) ↦ rw (allows, met, y) (answered _ _)
            | inr (inl (m, y)) ↦ rw (allows, met, y) (answered _ _)
            | inr (inr (m, y)) ↦ rw (allows, met, y) (answered _ _)
          ]
    ]
  ]

  -- Every request is answered, and leaves the metadata store and the deployment runtime as they
  -- were and exactly one audit record more, but for one whose adapter's lookup failed: that is
  -- answered as an internal error, and leaves everything as it was.
  pub invoke_answers :
      Answered (invoke host wire from_slice state user trace_id headers body name w)
      ⊎ ((e : Error) × (resolve_adapter state w name ≡ err e)
          × (invoke host wire from_slice state user trace_id headers body name w
              ≡ (done (refused 500 "internal_error" "metadata"), w)))
  unfolding invoke found_adapter ◌>>=◌ ◌>>◌
  invoke_answers = elim (Result-cases (resolve_adapter state w name)) [
    | inl (e, x) ↦ inr (e, x, rw x refl)
    | inr (o, x) ↦ elim (Option-cases o) [
      | inl y ↦
          let missing : resolve_adapter state w name ≡ ok none = cc (x, y) in
          inl (rw missing (answered _ _))
      | inr (a, y) ↦
          let there : resolve_adapter state w name ≡ ok (some a) = cc (x, y) in
          inl (rw there (decided-Answered a (judgement a)))
    ]
  ]
