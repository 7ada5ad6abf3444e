-- ===== src/Gateway/ControlPlane/Adapters/Access.antt =====
-- The handlers of /adapters on requests that the policy refuses.
use mcp_oxide.Prelude.{String, Option, none, some, List, [], ◌∷◌, ◌≡◌}
use mcp_oxide.Core.Error.{err, AppError, app_to_string, fail}
use mcp_oxide.Core.Identity.{UserContext}
use mcp_oxide.Core.Policy.{control_plane}
use mcp_oxide.Core.Audit.{deny}
use mcp_oxide.Gateway.State.{AppState, World}
use mcp_oxide.Gateway.Handler.{Host, HeaderMap, ◌>>=◌, ◌>>◌}
use mcp_oxide.Gateway.ControlPlane.Helpers.{
  CpVerb, adapter, create, read, list, update, delete, authorize, action_name, extract_trace_id,
}
use mcp_oxide.Gateway.ControlPlane.Bodies.{CreateAdapterBody, UpdateAdapterBody}
use mcp_oxide.Gateway.ControlPlane.Adapters.{
  list_adapters, create_adapter, check_create_adapter, get_adapter, update_adapter,
  check_update_adapter, delete_adapter, check_delete_adapter, get_adapter_status,
}

module _ {V M D : Type 0} (host : Host V) (state : AppState M D) (user : UserContext)
    (headers : HeaderMap V) (w : World M D) where
  -- the world with one more record, of the refusal `e`
  abbrev pub refused : CpVerb → String → AppError → World M D
  refused verb name e = record w {
    audit =
        record {
          ts = host.timestamp;
          trace_id = extract_trace_id host headers;
          user = record { sub = user.sub; tenant = user.tenant; roles = user.roles };
          plane = control_plane;
          action = action_name adapter verb;
          target = record { kind = "adapter"; name = name };
          decision = deny;
          policy_id = none;
          latency_ms = 0;
          upstream_status = "";
          request_hash = "";
          error = some (app_to_string e);
        }
        ∷ w.audit;
  }

  -- A creation that the policy refuses ends in that refusal, and all that changes is one audit record
  -- more, which denies it.
  pub create_adapter-refused :
      (body : CreateAdapterBody) (e : AppError)
      → authorize state.authz user adapter create body.name body.tags ≡ err e
      → create_adapter host state user headers body w ≡ (fail e, refused create body.name e)
  unfolding create_adapter check_create_adapter ◌>>=◌ ◌>>◌
  create_adapter-refused body e h = rw h

  -- A listing that the policy refuses ends in that refusal, with one audit record that denies it.
  pub list_adapters-refused :
      (tags : Option String) (e : AppError)
      → authorize state.authz user adapter list "*" [] ≡ err e
      → list_adapters host state user headers tags w ≡ (fail e, refused list "*" e)
  unfolding list_adapters ◌>>=◌ ◌>>◌
  list_adapters-refused tags e h = rw h

  -- A read that the policy refuses ends in that refusal, with one audit record that denies it.
  pub get_adapter-refused :
      (name : String) (e : AppError)
      → authorize state.authz user adapter read name [] ≡ err e
      → get_adapter host state user headers name w ≡ (fail e, refused read name e)
  unfolding get_adapter ◌>>=◌ ◌>>◌
  get_adapter-refused name e h = rw h

  -- An update that the policy refuses ends in that refusal, and all that changes is one audit record
  -- more, which denies it.
  pub update_adapter-refused :
      (name : String) (body : UpdateAdapterBody) (e : AppError)
      → authorize state.authz user adapter update name [] ≡ err e
      → update_adapter host state user headers name body w ≡ (fail e, refused update name e)
  unfolding update_adapter check_update_adapter ◌>>=◌ ◌>>◌
  update_adapter-refused name body e h = rw h

  -- A deletion that the policy refuses ends in that refusal, and all that changes is one audit record
  -- more, which denies it.
  pub delete_adapter-refused :
      (name : String) (e : AppError)
      → authorize state.authz user adapter delete name [] ≡ err e
      → delete_adapter host state user headers name w ≡ (fail e, refused delete name e)
  unfolding delete_adapter check_delete_adapter ◌>>=◌ ◌>>◌
  delete_adapter-refused name e h = rw h

  -- A question for the status that the policy refuses ends in that refusal, with one audit record
  -- that denies it.
  pub get_adapter_status-refused :
      (name : String) (e : AppError)
      → authorize state.authz user adapter read name [] ≡ err e
      → get_adapter_status host state user headers name w ≡ (fail e, refused read name e)
  unfolding get_adapter_status ◌>>=◌ ◌>>◌
  get_adapter_status-refused name e h = rw h

  -- If the policy refuses everything that the user asks of adapters, then each of the six handlers
  -- ends in its refusal, leaves the metadata store and the deployment as they were, and adds one
  -- audit record, which denies the request.
  pub adapters_refused :
      (refusal : CpVerb → String → List String → AppError)
      → ((verb : CpVerb) (name : String) (tags : List String)
          → authorize state.authz user adapter verb name tags ≡ err (refusal verb name tags))
      → (body : CreateAdapterBody) (change : UpdateAdapterBody) (name : String)
        (tags : Option String)
      → (create_adapter host state user headers body w ≡ (
        fail (refusal create body.name body.tags),
        refused create body.name (refusal create body.name body.tags),
      ))
        × (list_adapters host state user headers tags w
            ≡ (fail (refusal list "*" []), refused list "*" (refusal list "*" [])))
        × (get_adapter host state user headers name w
            ≡ (fail (refusal read name []), refused read name (refusal read name [])))
        × (update_adapter host state user headers name change w
            ≡ (fail (refusal update name []), refused update name (refusal update name [])))
        × (delete_adapter host state user headers name w
            ≡ (fail (refusal delete name []), refused delete name (refusal delete name [])))
        × (get_adapter_status host state user headers name w
            ≡ (fail (refusal read name []), refused read name (refusal read name [])))
  adapters_refused refusal refuses body change name tags = (
    create_adapter-refused body _ (refuses create body.name body.tags),
    list_adapters-refused tags _ (refuses list "*" []),
    get_adapter-refused name _ (refuses read name []),
    update_adapter-refused name change _ (refuses update name []),
    delete_adapter-refused name _ (refuses delete name []),
    get_adapter_status-refused name _ (refuses read name []),
  )
