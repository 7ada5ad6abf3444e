-- ===== src/Gateway/ControlPlane/Tools/Access.antt =====
-- The handlers of /tools on requests that the policy refuses.
use mcp_oxide.Prelude.{String, Option, none, some, List, [], ◌∷◌, ◌≡◌}
use mcp_oxide.Core.Error.{err, AppError, app_to_string, fail}
use mcp_oxide.Core.Identity.{UserContext}
use mcp_oxide.Core.Policy.{control_plane}
use mcp_oxide.Core.Audit.{deny}
use mcp_oxide.Gateway.State.{AppState, World}
use mcp_oxide.Gateway.Handler.{Host, HeaderMap, ◌>>=◌, ◌>>◌}
use mcp_oxide.Gateway.ControlPlane.Helpers.{
  CpVerb, tool, create, read, list, update, delete, authorize, action_name, extract_trace_id,
}
use mcp_oxide.Gateway.ControlPlane.Bodies.{CreateToolBody, UpdateToolBody}
use mcp_oxide.Gateway.ControlPlane.Tools.{
  list_tools, create_tool, check_create_tool, get_tool, update_tool, check_update_tool, delete_tool,
  check_delete_tool, get_tool_status,
}

module _ {V M D : Type 0} (host : Host V) (state : AppState M D) (user : UserContext)
    (headers : HeaderMap V) (w : World M D) where
  -- the world with one more record, of the refusal `e`
  abbrev pub refused : CpVerb → String → AppError → World M D
  refused verb name e = record w {
    audit =
        record {
          ts = host.timestamp;
          trace_id = extract_trace_id host headers;
          user = record { sub = user.sub; tenant = user.tenant; roles = user.roles };
          plane = control_plane;
          action = action_name tool verb;
          target = record { kind = "tool"; name = name };
          decision = deny;
          policy_id = none;
          latency_ms = 0;
          upstream_status = "";
          request_hash = "";
          error = some (app_to_string e);
        }
        ∷ w.audit;
  }

  -- A creation that the policy refuses ends in that refusal, and all that changes is one audit record
  -- more, which denies it.
  pub create_tool-refused :
      (body : CreateToolBody) (e : AppError)
      → authorize state.authz user tool create body.name body.tags ≡ err e
      → create_tool host state user headers body w ≡ (fail e, refused create body.name e)
  unfolding create_tool check_create_tool ◌>>=◌ ◌>>◌
  create_tool-refused body e h = rw h

  -- A listing that the policy refuses ends in that refusal, with one audit record that denies it.
  pub list_tools-refused :
      (tags : Option String) (e : AppError)
      → authorize state.authz user tool list "*" [] ≡ err e
      → list_tools host state user headers tags w ≡ (fail e, refused list "*" e)
  unfolding list_tools ◌>>=◌ ◌>>◌
  list_tools-refused tags e h = rw h

  -- A read that the policy refuses ends in that refusal, with one audit record that denies it.
  pub get_tool-refused :
      (name : String) (e : AppError)
      → authorize state.authz user tool read name [] ≡ err e
      → get_tool host state user headers name w ≡ (fail e, refused read name e)
  unfolding get_tool ◌>>=◌ ◌>>◌
  get_tool-refused name e h = rw h

  -- An update that the policy refuses ends in that refusal, and all that changes is one audit record
  -- more, which denies it.
  pub update_tool-refused :
      (name : String) (body : UpdateToolBody) (e : AppError)
      → authorize state.authz user tool update name [] ≡ err e
      → update_tool host state user headers name body w ≡ (fail e, refused update name e)
  unfolding update_tool check_update_tool ◌>>=◌ ◌>>◌
  update_tool-refused name body e h = rw h

  -- A deletion that the policy refuses ends in that refusal, and all that changes is one audit record
  -- more, which denies it.
  pub delete_tool-refused :
      (name : String) (e : AppError)
      → authorize state.authz user tool delete name [] ≡ err e
      → delete_tool host state user headers name w ≡ (fail e, refused delete name e)
  unfolding delete_tool check_delete_tool ◌>>=◌ ◌>>◌
  delete_tool-refused name e h = rw h

  -- A question for the status that the policy refuses ends in that refusal, with one audit record
  -- that denies it.
  pub get_tool_status-refused :
      (name : String) (e : AppError)
      → authorize state.authz user tool read name [] ≡ err e
      → get_tool_status host state user headers name w ≡ (fail e, refused read name e)
  unfolding get_tool_status ◌>>=◌ ◌>>◌
  get_tool_status-refused name e h = rw h

  -- If the policy refuses everything that the user asks of tools, then each of the six handlers
  -- ends in its refusal, leaves the metadata store and the deployment as they were, and adds one
  -- audit record, which denies the request.
  pub tools_refused :
      (refusal : CpVerb → String → List String → AppError)
      → ((verb : CpVerb) (name : String) (tags : List String)
          → authorize state.authz user tool verb name tags ≡ err (refusal verb name tags))
      → (body : CreateToolBody) (change : UpdateToolBody) (name : String) (tags : Option String)
      → (create_tool host state user headers body w ≡ (
        fail (refusal create body.name body.tags),
        refused create body.name (refusal create body.name body.tags),
      ))
        × (list_tools host state user headers tags w
            ≡ (fail (refusal list "*" []), refused list "*" (refusal list "*" [])))
        × (get_tool host state user headers name w
            ≡ (fail (refusal read name []), refused read name (refusal read name [])))
        × (update_tool host state user headers name change w
            ≡ (fail (refusal update name []), refused update name (refusal update name [])))
        × (delete_tool host state user headers name w
            ≡ (fail (refusal delete name []), refused delete name (refusal delete name [])))
        × (get_tool_status host state user headers name w
            ≡ (fail (refusal read name []), refused read name (refusal read name [])))
  tools_refused refusal refuses body change name tags = (
    create_tool-refused body _ (refuses create body.name body.tags),
    list_tools-refused tags _ (refuses list "*" []),
    get_tool-refused name _ (refuses read name []),
    update_tool-refused name change _ (refuses update name []),
    delete_tool-refused name _ (refuses delete name []),
    get_tool_status-refused name _ (refuses read name []),
  )
