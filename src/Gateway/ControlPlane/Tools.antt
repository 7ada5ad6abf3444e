-- ===== src/Gateway/ControlPlane/Tools.antt =====
-- crates/gateway/src/routes/control_plane.rs: the handlers of /tools.
pub mod Access
pub mod Registered
pub mod Create
pub mod Redeploy
pub mod Revised
pub mod Update
pub mod Stale
pub mod Delete
use mcp_oxide.Prelude.{
  ℕ, ◌+◌, ◌%◌, ◌^◌, String, Bool, true, false, not, ◌&&◌, ◌||◌, Option, none, some, List, [], ◌∷◌,
  map, ◌==◌, nat_eq, if◌then◌else◌, is_none, is_some, option_eq, list_eq, or_else, unwrap_or,
}
use mcp_oxide.Text.{format}
use mcp_oxide.Core.Error.{
  Error, not_found, conflict, Result, ok, err, AppError, core, app_to_string, Outcome,
}
use mcp_oxide.Core.Identity.{UserContext}
use mcp_oxide.Core.Model.{
  DateTime, ImageRef, Endpoint, EnvVar, SessionAffinity, sticky, no_affinity, Tool, env_var_eq,
  secret_ref_eq, resources_eq,
}
use mcp_oxide.Core.Audit.{AuditDecision, allow, deny}
use mcp_oxide.Core.Providers.{DeploymentSpec, DeploymentStatus, tool_deployment, Filter}
use mcp_oxide.Gateway.State.{AppState, World}
use mcp_oxide.Gateway.Handler.{
  Host, HeaderMap, Handler, return, raise, try_app, try_core, expect, reads, on_store, on_cluster,
  emit, ◌>>=◌, ◌>>◌,
}
use mcp_oxide.Gateway.Validation.{validate_resource_name, validate_env_var_name}
use mcp_oxide.Gateway.ControlPlane.Helpers.{
  CpKind, tool, CpVerb, create, read, list, update, delete, authorize, audit_record,
  extract_trace_id, parse_if_match, etag_for, location_for, handle_for,
}
use mcp_oxide.Gateway.ControlPlane.Steps.{
  Response, Request, affinity_of, next_revision, check_env, check_env_option, check_revision,
  as_app, found, undeployed, parse_tags, allowance, denial, or_deny,
}
use mcp_oxide.Gateway.ControlPlane.Bodies.{
  EnvVarBody, CreateToolBody, UpdateToolBody, ToolResponse, tool_response, env_var, secret_ref,
  resources_of, resources_or_none, tool_definition_of,
}

-- the tool that `create_tool` registers
unfoldable pub tool_of_body : DateTime → CreateToolBody → Tool
tool_of_body now body = record {
  name = body.name;
  description = body.description;
  image = record { reference = body.image };
  endpoint = record { port = body.endpoint_port; path = body.endpoint_path };
  tool_definition = tool_definition_of body.tool_definition;
  env = map env_var body.env;
  secret_refs = map secret_ref body.secret_refs;
  required_roles = body.required_roles;
  tags = body.tags;
  resources = resources_or_none body.resources;
  revision = some 1;
  created_at = some now;
  updated_at = some now;
}

-- the fields that `update_tool` sets; the others keep their values
unfoldable pub changed_tool : UpdateToolBody → Tool → Tool
changed_tool body a = record a {
  description = or_else body.description a.description;
  image = elim body.image [ none ↦ a.image | some img ↦ record { reference = img } ];
  endpoint = record {
    port = unwrap_or a.endpoint.port body.endpoint_port;
    path = unwrap_or a.endpoint.path body.endpoint_path;
  };
  tool_definition = elim body.tool_definition [
    | none ↦ a.tool_definition
    | some d ↦ tool_definition_of d
  ];
  env = elim body.env [ none ↦ a.env | some e ↦ map env_var e ];
  secret_refs = elim body.secret_refs [ none ↦ a.secret_refs | some s ↦ map secret_ref s ];
  required_roles = unwrap_or a.required_roles body.required_roles;
  tags = unwrap_or a.tags body.tags;
  resources = elim body.resources [ none ↦ a.resources | some r ↦ resources_of r ];
}

-- `deployment_changed`, of the tool before and after
unfoldable pub tool_deployment_changed : Tool → Tool → Bool
tool_deployment_changed prev a =
    not (prev.image.reference == a.image.reference)
    || not (nat_eq prev.endpoint.port a.endpoint.port)
    || not (prev.endpoint.path == a.endpoint.path)
    || not (list_eq env_var_eq prev.env a.env)
    || not (list_eq secret_ref_eq prev.secret_refs a.secret_refs)
    || not (resources_eq prev.resources a.resources)

unfoldable pub bumped_tool : DateTime → Tool → Tool
bumped_tool now a = record a { revision = some (next_revision a.revision); updated_at = some now }

abbrev pub tool_spec : Tool → DeploymentSpec
tool_spec a = record { name = a.name; kind = tool_deployment; adapter = none; tool = some a }

module _ {V M D : Type 0} (host : Host V) (state : AppState M D) (user : UserContext)
    (headers : HeaderMap V) where
  abbrev pub request_for : CpVerb → String → Request V
  request_for verb name = record {
    host = host;
    trace_id = extract_trace_id host headers;
    user = user;
    kind = tool;
    verb = verb;
    name = name;
  }

  abbrev not_found_tool : String → Error
  not_found_tool name = not_found (format ("tool '" ∷ name ∷ "'" ∷ []))

  -- `state.metadata.get_tool(&name).await?`
  abbrev stored : String → Handler M D (Option Tool)
  stored name = do answer ← reads (λ w. state.metadata.get_tool name w.store); try_core answer

  unfoldable pub list_tools : Option String → Handler M D (List ToolResponse)
  list_tools tags = do
    let r = request_for list "*"
    policy_id ← or_deny r none (authorize state.authz user tool list "*" [])
    emit (allowance r policy_id)
    answer ←
        reads (λ w.
          state.metadata.list_tools (record { tenant = none; tags = parse_tags tags }) w.store)
    tools ← try_core answer
    return (map (tool_response host) tools)

  -- persist first, deploy second, and take the record back if that fails
  abbrev deploy_new_tool : Request V → Option String → Tool → Handler M D Unit
  deploy_new_tool r policy_id a = do
    applied ← on_cluster (state.deployment.apply (tool_spec a))
    elim applied [
      | ok _ ↦ return tt
      | err e ↦ do
        _ ← on_store (state.metadata.delete_tool a.name)
        or_deny r policy_id (err (core e))
    ]

  -- the checks of `create_tool`, and the policy and the location that they find
  unfoldable pub check_create_tool : CreateToolBody → Handler M D (Option String × V)
  unfolding ◌>>=◌ ◌>>◌
  check_create_tool body = do
    let r = request_for create body.name
    policy_id ← or_deny r none (authorize state.authz user tool create body.name body.tags)
    or_deny r policy_id (as_app (validate_resource_name body.name))
    or_deny r policy_id (check_env body.env)
    location ← or_deny r policy_id (location_for host tool body.name)
    existing ← stored body.name
    or_deny r policy_id (
        if is_some existing
        then err (core (conflict (format ("tool '" ∷ body.name ∷ "' already exists" ∷ []))))
        else ok tt)
    return (policy_id, location)

  -- the rest of `create_tool`
  unfoldable pub persist_tool :
      CreateToolBody → Option String × V → Handler M D (Response V ToolResponse)
  unfolding ◌>>=◌ ◌>>◌
  persist_tool body (policy_id, location) = do
    let r = request_for create body.name
    let a = tool_of_body host.now body
    put ← on_store (state.metadata.put_tool a)
    try_core put
    deploy_new_tool r policy_id a
    emit (allowance r policy_id)
    tag ← expect (etag_for host 1)
    return (record {
      status = 201;
      location = some location;
      etag = some tag;
      body = tool_response host a;
    })

  unfoldable pub create_tool : CreateToolBody → Handler M D (Response V ToolResponse)
  create_tool body = check_create_tool body >>= persist_tool body

  unfoldable pub get_tool : String → Handler M D (Response V ToolResponse)
  get_tool name = do
    let r = request_for read name
    policy_id ← or_deny r none (authorize state.authz user tool read name [])
    answer ← stored name
    a ← try_core (found (not_found_tool name) answer)
    emit (allowance r policy_id)
    tag ← expect (etag_for host (unwrap_or 0 a.revision))
    return (record { status = 200; location = none; etag = some tag; body = tool_response host a })

  abbrev redeploy_tool : Request V → Option String → Tool → Handler M D Unit
  redeploy_tool r policy_id a = do
    applied ← on_cluster (state.deployment.apply (tool_spec a))
    elim applied [ ok _ ↦ return tt | err e ↦ or_deny r policy_id (err (core e)) ]

  -- the checks of `update_tool`, and the policy and the record that they find
  unfoldable pub check_update_tool : String → UpdateToolBody → Handler M D (Option String × Tool)
  unfolding ◌>>=◌ ◌>>◌
  check_update_tool name body = do
    let r = request_for update name
    policy_id ← or_deny r none (authorize state.authz user tool update name [])
    or_deny r policy_id (check_env_option body.env)
    header_rev ← try_app (parse_if_match host headers)
    answer ← stored name
    prev ← try_core (found (not_found_tool name) answer)
    or_deny r policy_id (check_revision (or_else header_rev body.revision) prev.revision)
    return (policy_id, prev)

  -- the rest of `update_tool`
  unfoldable pub rewrite_tool :
      String → UpdateToolBody → Option String × Tool → Handler M D (Response V ToolResponse)
  unfolding ◌>>=◌ ◌>>◌
  rewrite_tool name body (policy_id, prev) = do
    let r = request_for update name
    let changed = changed_tool body prev
    let a = bumped_tool host.now changed
    put ← on_store (state.metadata.put_tool a)
    try_core put
    if tool_deployment_changed prev changed then redeploy_tool r policy_id a else return tt
    emit (allowance r policy_id)
    tag ← expect (etag_for host (next_revision prev.revision))
    return (record { status = 200; location = none; etag = some tag; body = tool_response host a })

  unfoldable pub update_tool : String → UpdateToolBody → Handler M D (Response V ToolResponse)
  update_tool name body = check_update_tool name body >>= rewrite_tool name body

  abbrev undeploy_tool : Request V → Option String → String → Handler M D Unit
  undeploy_tool r policy_id name = do
    deleted ← on_cluster (state.deployment.delete (handle_for name))
    or_deny r policy_id (undeployed deleted)

  -- the checks of `delete_tool`, and the policy and the record that they find
  unfoldable pub check_delete_tool : String → Handler M D (Option String × Tool)
  unfolding ◌>>=◌ ◌>>◌
  check_delete_tool name = do
    let r = request_for delete name
    policy_id ← or_deny r none (authorize state.authz user tool delete name [])
    answer ← stored name
    existing ← or_deny r policy_id (as_app (found (not_found_tool name) answer))
    rev ← try_app (parse_if_match host headers)
    or_deny r policy_id (check_revision rev existing.revision)
    return (policy_id, existing)

  -- the rest of `delete_tool`
  unfoldable pub remove_tool : String → Option String × Tool → Handler M D ℕ
  unfolding ◌>>=◌ ◌>>◌
  remove_tool name (policy_id, existing) = do
    let r = request_for delete name
    undeploy_tool r policy_id name
    deleted ← on_store (state.metadata.delete_tool name)
    try_core deleted
    emit (allowance r policy_id)
    return 204

  unfoldable pub delete_tool : String → Handler M D ℕ
  delete_tool name = check_delete_tool name >>= remove_tool name

  unfoldable pub get_tool_status : String → Handler M D DeploymentStatus
  get_tool_status name = do
    let r = request_for read name
    policy_id ← or_deny r none (authorize state.authz user tool read name [])
    answer ← stored name
    _ ← try_core (found (not_found_tool name) answer)
    answered ← reads (λ w. state.deployment.status (handle_for name) w.cluster)
    status ← try_core answered
    emit (allowance r policy_id)
    return status
