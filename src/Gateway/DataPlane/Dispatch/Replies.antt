-- ===== src/Gateway/DataPlane/Dispatch/Replies.antt =====
-- How `POST /mcp` answers a JSON-RPC request.
use mcp_oxide.Prelude.{
  String, [], ◌∷◌, ◌*◌, none, ◌==◌, eq_iff, ◌≡◌, ◌≢◌, ◌⊎◌, inl, inr, refl, arith, Bool-cases,
}
use mcp_oxide.Core.Error.{
  ok, err, internal, AppError, core, Result-cases, Outcome, done, fail, panic,
}
use mcp_oxide.Text.{format}
use mcp_oxide.Core.Identity.{UserContext}
use mcp_oxide.Core.Json
use mcp_oxide.Core.Json.{end}
use mcp_oxide.Gateway.ControlPlane.Helpers.{extract_trace_id}
use mcp_oxide.Gateway.DataPlane.ToolRouter.{handle_tools_list}
use mcp_oxide.Gateway.State.{AppState, World}
use mcp_oxide.Gateway.Handler.{Host, HeaderMap, ◌>>=◌}
use mcp_oxide.Gateway.DataPlane.ToolCall.{JsonRequest, JsonResponse, Network, map_error_to_jsonrpc}
use mcp_oxide.Gateway.DataPlane.Dispatch.{
  Bodies, page_json, core_of, caught, error_reply, result_reply, method_not_found, listed, called,
  routed, replied, route,
}

-- a reply to this request: either a result or an error
abbrev pub IsReplyTo : JsonRequest → JsonResponse → Type 0
IsReplyTo rpc reply =
    (reply.id ≡ rpc.id)
    × (reply.jsonrpc ≡ "2.0")
    × (((reply.result ≢ none) × (reply.error ≡ none))
        ⊎ ((reply.result ≡ none) × (reply.error ≢ none)))

Outcome-cases :
    {A : Type 0} (o : Outcome A)
    → ((a : A) × (o ≡ done a)) ⊎ ((e : AppError) × (o ≡ fail e)) ⊎ (o ≡ panic)
Outcome-cases (done a) = inl (a, refl)
Outcome-cases (fail e) = inr (inl (e, refl))
Outcome-cases panic = inr (inr refl)

module _ {V M D R B : Type 0} (host : Host V) (bodies : Bodies R B) (network : Network)
    (state : AppState M D) (user : UserContext) (headers : HeaderMap V) where
  -- the method's reply to the request: only the backend of a tool may have it otherwise
  pub record Answers (body : B) (rpc : JsonRequest) (w : World M D) (reply : JsonResponse)
      (w' : World M D) : Type 0 where
    pub caught_reply :
        caught rpc (routed host bodies network state user headers body rpc w) ≡ (done reply, w')
    pub reply_to :
        IsReplyTo rpc reply
        ⊎ ((rpc.method ≡ "tools/call")
            × (called host bodies network state user headers body rpc w ≡ (done reply, w')))

  -- What is sent for the reply: status 200 with its JSON, or an internal error if there is none.
  abbrev pub Sent : R → World M D → JsonResponse → World M D → Type 0
  Sent request w reply w' =
      ((bytes : B) × (bodies.to_vec reply ≡ ok bytes)
        × (route host bodies network state user headers request w ≡ (
          done (record { status = 200; content_type = "application/json"; body = bytes }),
          w',
        )))
      ⊎ ((e : String) × (bodies.to_vec reply ≡ err e)
          × (route host bodies network state user headers request w
              ≡ (fail (core (internal (format ("serialize: " ∷ e ∷ [])))), w')))

  replied-Sent :
      (request : R) (w : World M D) (reply : JsonResponse) (w' : World M D)
      → route host bodies network state user headers request w
        ≡ replied host bodies network state user headers reply w'
      → Sent request w reply w'
  replied-Sent request w reply w' ran = elim (Result-cases (bodies.to_vec reply)) [
    | inl (e, x) ↦ inr (e, x, rw (ran, x) refl)
    | inr (bytes, x) ↦ inl (bytes, x, rw (ran, x) refl)
  ]

  -- what a method that returns a reply makes it
  abbrev Returns : B → JsonRequest → World M D → Type 0
  Returns body rpc w =
      (reply : JsonResponse) (w' : World M D)
      → routed host bodies network state user headers body rpc w ≡ (done reply, w')
      → IsReplyTo rpc reply
        ⊎ ((rpc.method ≡ "tools/call")
            × (called host bodies network state user headers body rpc w ≡ (done reply, w')))

  listed-IsReplyTo :
      (rpc : JsonRequest) (w : World M D) (reply : JsonResponse) (w' : World M D)
      → listed host bodies network state user headers rpc w ≡ (done reply, w')
      → IsReplyTo rpc reply
  unfolding ◌>>=◌
  listed-IsReplyTo rpc w reply w' h =
      elim (Outcome-cases
        (handle_tools_list host bodies.list_params state user (extract_trace_id host headers)
          rpc.params w).0) [
            | inl (page, x) ↦
                let same : result_reply rpc (page_json bodies.tool_json page) ≡ reply =
                  ground arith in
                rw (← same) (refl, refl, inl (λ e. cc, refl))
            | inr (inl (e, x)) ↦ absurd (ground arith)
            | inr (inr x) ↦ absurd (ground arith)
          ]

  routed-Returns : (body : B) (rpc : JsonRequest) (w : World M D) → Returns body rpc w
  unfolding routed
  routed-Returns body rpc w reply w' h = elim (Bool-cases (rpc.method == "tools/list")) [
    | inl lists ↦ inl (listed-IsReplyTo rpc w reply w' (rw lists at h))
    | inr a ↦ elim (Bool-cases (rpc.method == "tools/call")) [
      | inl calls ↦ inr ((eq_iff rpc.method "tools/call").0 calls, rw (a, calls) at h)
      | inr b ↦ elim (Bool-cases (rpc.method == "ping")) [
        | inl pings ↦
            let same : result_reply rpc (Json.object end) ≡ reply = ground arith in
            inl (rw (← same) (refl, refl, inl (λ e. cc, refl)))
        | inr c ↦
            let same : error_reply rpc method_not_found ≡ reply = ground arith in
            inl (rw (← same) (refl, refl, inr (refl, λ e. cc)))
      ]
    ]
  ]

  from_run :
      (body : B) (rpc : JsonRequest) (w : World M D) (run : Outcome JsonResponse × World M D)
      → routed host bodies network state user headers body rpc w ≡ run
      → ((routed host bodies network state user headers body rpc w).0 ≡ panic)
        ⊎ ((reply : JsonResponse) × (w' : World M D) × Answers body rpc w reply w')
  from_run body rpc w (panic, w') e = inl (rw e refl)
  from_run body rpc w (fail x, w') e =
      let reply = error_reply rpc (map_error_to_jsonrpc (core_of x)) in
      inr (
        reply,
        w',
        record { caught_reply = rw e refl; reply_to = inl (refl, refl, inr (refl, λ n. cc)) },
      )
  from_run body rpc w (done reply, w') e = inr (
    reply,
    w',
    record { caught_reply = rw e refl; reply_to = routed-Returns body rpc w reply w' e },
  )

  caught-Answers :
      (body : B) (rpc : JsonRequest) (w : World M D)
      → ((routed host bodies network state user headers body rpc w).0 ≡ panic)
        ⊎ ((reply : JsonResponse) × (w' : World M D) × Answers body rpc w reply w')
  caught-Answers body rpc w =
      from_run body rpc w (routed host bodies network state user headers body rpc w) refl

  -- A request that is read as JSON-RPC is answered unless its method panics: with status 200 and
  -- the reply as JSON, or with an internal error if the reply cannot be written as JSON. The reply
  -- has the id of the request and either a result or an error, but for a `tools/call` that
  -- succeeds, whose reply may be the backend's own.
  pub route_replies :
      (request : R) (body : B) (rpc : JsonRequest) (w : World M D)
      → bodies.to_bytes request (1024 * 1024) ≡ ok body
      → bodies.from_slice body ≡ ok rpc
      → ((routed host bodies network state user headers body rpc w).0 ≡ panic)
        ⊎ ((reply : JsonResponse) × (w' : World M D) × Answers body rpc w reply w'
            × Sent request w reply w')
  unfolding route ◌>>=◌
  route_replies request body rpc w sent read = elim (caught-Answers body rpc w) [
    | inl p ↦ inl p
    | inr (reply, w', a) ↦
        inr (reply, w', a, replied-Sent request w reply w' (rw (sent, read, a.caught_reply) refl))
  ]
