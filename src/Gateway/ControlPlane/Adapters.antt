-- ===== src/Gateway/ControlPlane/Adapters.antt =====
-- crates/gateway/src/routes/control_plane.rs: the handlers of /adapters.
pub mod Access
pub mod Registered
pub mod Create
pub mod Redeploy
pub mod Revised
pub mod Update
pub mod Stale
pub mod Delete
use mathlib.Core.Option
use mcp_oxide.Prelude.{
  ℕ, ◌+◌, ◌%◌, ◌^◌, String, Bool, true, false, not, ◌&&◌, ◌||◌, Option, none, some, List, [], ◌∷◌,
  map, ◌==◌, nat_eq, if◌then◌else◌, is_none, is_some, option_eq, list_eq, or_else, unwrap_or,
}
use mcp_oxide.Text.{format}
use mcp_oxide.Core.Error.{
  Error, not_found, conflict, Result, ok, err, AppError, core, app_to_string, Outcome,
}
use mcp_oxide.Core.Identity.{UserContext}
use mcp_oxide.Core.Model.{
  DateTime, ImageRef, Endpoint, EnvVar, SessionAffinity, sticky, no_affinity, Adapter, env_var_eq,
  secret_ref_eq, resources_eq,
}
use mcp_oxide.Core.Audit.{AuditDecision, allow, deny}
use mcp_oxide.Core.Providers.{DeploymentSpec, DeploymentStatus, adapter_deployment, Filter}
use mcp_oxide.Gateway.State.{AppState, World}
use mcp_oxide.Gateway.Handler.{
  Host, HeaderMap, Handler, return, raise, try_app, try_core, expect, reads, on_store, on_cluster,
  emit, ◌>>=◌, ◌>>◌,
}
use mcp_oxide.Gateway.Validation.{validate_resource_name, validate_env_var_name}
use mcp_oxide.Gateway.ControlPlane.Helpers.{
  CpKind, adapter, CpVerb, create, read, list, update, delete, authorize, audit_record,
  extract_trace_id, parse_if_match, etag_for, location_for, handle_for,
}
use mcp_oxide.Gateway.ControlPlane.Steps.{
  Response, Request, affinity_of, next_revision, check_env, check_env_option, check_revision,
  as_app, found, undeployed, parse_tags, allowance, denial, or_deny,
}
use mcp_oxide.Gateway.ControlPlane.Bodies.{
  EnvVarBody, CreateAdapterBody, UpdateAdapterBody, AdapterResponse, adapter_response, env_var,
  secret_ref, resources_of, resources_or_none, health_probe,
}

-- the adapter that `create_adapter` registers
unfoldable pub adapter_of_body : DateTime → CreateAdapterBody → Adapter
adapter_of_body now body = record {
  name = body.name;
  description = body.description;
  image = record { reference = body.image };
  endpoint = record { port = body.endpoint_port; path = body.endpoint_path };
  upstream = body.upstream;
  replicas = body.replicas;
  env = map env_var body.env;
  secret_refs = map secret_ref body.secret_refs;
  required_roles = body.required_roles;
  tags = body.tags;
  resources = resources_or_none body.resources;
  health = Option.map health_probe body.health;
  session_affinity = affinity_of body.session_affinity;
  labels = body.labels;
  revision = some 1;
  created_at = some now;
  updated_at = some now;
}

-- the fields that `update_adapter` sets; the others keep their values
unfoldable pub changed_adapter : UpdateAdapterBody → Adapter → Adapter
changed_adapter body a = record a {
  description = or_else body.description a.description;
  image = elim body.image [ none ↦ a.image | some img ↦ record { reference = img } ];
  endpoint = record {
    port = unwrap_or a.endpoint.port body.endpoint_port;
    path = unwrap_or a.endpoint.path body.endpoint_path;
  };
  upstream = or_else body.upstream a.upstream;
  replicas = unwrap_or a.replicas body.replicas;
  env = elim body.env [ none ↦ a.env | some e ↦ map env_var e ];
  secret_refs = elim body.secret_refs [ none ↦ a.secret_refs | some s ↦ map secret_ref s ];
  required_roles = unwrap_or a.required_roles body.required_roles;
  tags = unwrap_or a.tags body.tags;
  resources = elim body.resources [ none ↦ a.resources | some r ↦ resources_of r ];
  health = elim body.health [ none ↦ a.health | some h ↦ some (health_probe h) ];
  session_affinity = elim body.session_affinity [
    | none ↦ a.session_affinity
    | some s ↦ affinity_of (some s)
  ];
  labels = unwrap_or a.labels body.labels;
}

-- `deployment_changed`, of the adapter before and after
unfoldable pub adapter_deployment_changed : Adapter → Adapter → Bool
adapter_deployment_changed prev a =
    not (prev.image.reference == a.image.reference)
    || not (nat_eq prev.endpoint.port a.endpoint.port)
    || not (prev.endpoint.path == a.endpoint.path)
    || not (list_eq env_var_eq prev.env a.env)
    || not (list_eq secret_ref_eq prev.secret_refs a.secret_refs)
    || not (nat_eq prev.replicas a.replicas)
    || not (resources_eq prev.resources a.resources)
    || not (option_eq ◌==◌ prev.upstream a.upstream)

unfoldable pub bumped_adapter : DateTime → Adapter → Adapter
bumped_adapter now a = record a {
  revision = some (next_revision a.revision);
  updated_at = some now;
}

abbrev pub adapter_spec : Adapter → DeploymentSpec
adapter_spec a = record { name = a.name; kind = adapter_deployment; adapter = some a; tool = none }

module _ {V M D : Type 0} (host : Host V) (state : AppState M D) (user : UserContext)
    (headers : HeaderMap V) where
  abbrev pub request_for : CpVerb → String → Request V
  request_for verb name = record {
    host = host;
    trace_id = extract_trace_id host headers;
    user = user;
    kind = adapter;
    verb = verb;
    name = name;
  }

  abbrev not_found_adapter : String → Error
  not_found_adapter name = not_found (format ("adapter '" ∷ name ∷ "'" ∷ []))

  -- `state.metadata.get_adapter(&name).await?`
  abbrev stored : String → Handler M D (Option Adapter)
  stored name = do answer ← reads (λ w. state.metadata.get_adapter name w.store); try_core answer

  unfoldable pub list_adapters : Option String → Handler M D (List AdapterResponse)
  list_adapters tags = do
    let r = request_for list "*"
    policy_id ← or_deny r none (authorize state.authz user adapter list "*" [])
    emit (allowance r policy_id)
    answer ← reads (λ w.
        state.metadata.list_adapters (record { tenant = none; tags = parse_tags tags }) w.store)
    adapters ← try_core answer
    return (map (adapter_response host) adapters)

  -- persist first, deploy second, and take the record back if that fails
  abbrev deploy_new_adapter : Request V → Option String → Adapter → Handler M D Unit
  deploy_new_adapter r policy_id a = do
    applied ← on_cluster (state.deployment.apply (adapter_spec a))
    elim applied [
      | ok _ ↦ return tt
      | err e ↦ do
        _ ← on_store (state.metadata.delete_adapter a.name)
        or_deny r policy_id (err (core e))
    ]

  -- the checks of `create_adapter`, and the policy and the location that they find
  unfoldable pub check_create_adapter : CreateAdapterBody → Handler M D (Option String × V)
  unfolding ◌>>=◌ ◌>>◌
  check_create_adapter body = do
    let r = request_for create body.name
    policy_id ← or_deny r none (authorize state.authz user adapter create body.name body.tags)
    or_deny r policy_id (as_app (validate_resource_name body.name))
    or_deny r policy_id (check_env body.env)
    location ← or_deny r policy_id (location_for host adapter body.name)
    existing ← stored body.name
    or_deny r policy_id (
        if is_some existing
        then err (core (conflict (format ("adapter '" ∷ body.name ∷ "' already exists" ∷ []))))
        else ok tt)
    return (policy_id, location)

  -- the rest of `create_adapter`
  unfoldable pub persist_adapter :
      CreateAdapterBody → Option String × V → Handler M D (Response V AdapterResponse)
  unfolding ◌>>=◌ ◌>>◌
  persist_adapter body (policy_id, location) = do
    let r = request_for create body.name
    let a = adapter_of_body host.now body
    put ← on_store (state.metadata.put_adapter a)
    try_core put
    if is_none body.upstream then deploy_new_adapter r policy_id a else return tt
    emit (allowance r policy_id)
    tag ← expect (etag_for host 1)
    return (record {
      status = 201;
      location = some location;
      etag = some tag;
      body = adapter_response host a;
    })

  unfoldable pub create_adapter : CreateAdapterBody → Handler M D (Response V AdapterResponse)
  create_adapter body = check_create_adapter body >>= persist_adapter body

  unfoldable pub get_adapter : String → Handler M D (Response V AdapterResponse)
  get_adapter name = do
    let r = request_for read name
    policy_id ← or_deny r none (authorize state.authz user adapter read name [])
    answer ← stored name
    a ← try_core (found (not_found_adapter name) answer)
    emit (allowance r policy_id)
    tag ← expect (etag_for host (unwrap_or 0 a.revision))
    return
        (record { status = 200; location = none; etag = some tag; body = adapter_response host a })

  abbrev redeploy_adapter : Request V → Option String → Adapter → Handler M D Unit
  redeploy_adapter r policy_id a = do
    applied ← on_cluster (state.deployment.apply (adapter_spec a))
    elim applied [ ok _ ↦ return tt | err e ↦ or_deny r policy_id (err (core e)) ]

  -- the checks of `update_adapter`, and the policy and the record that they find
  unfoldable pub check_update_adapter :
      String → UpdateAdapterBody → Handler M D (Option String × Adapter)
  unfolding ◌>>=◌ ◌>>◌
  check_update_adapter name body = do
    let r = request_for update name
    policy_id ← or_deny r none (authorize state.authz user adapter update name [])
    or_deny r policy_id (check_env_option body.env)
    header_rev ← try_app (parse_if_match host headers)
    answer ← stored name
    prev ← try_core (found (not_found_adapter name) answer)
    or_deny r policy_id (check_revision (or_else header_rev body.revision) prev.revision)
    return (policy_id, prev)

  -- the rest of `update_adapter`
  unfoldable pub rewrite_adapter :
      String
      → UpdateAdapterBody
      → Option String × Adapter
      → Handler M D (Response V AdapterResponse)
  unfolding ◌>>=◌ ◌>>◌
  rewrite_adapter name body (policy_id, prev) = do
    let r = request_for update name
    let changed = changed_adapter body prev
    let a = bumped_adapter host.now changed
    put ← on_store (state.metadata.put_adapter a)
    try_core put
    if adapter_deployment_changed prev changed && is_none a.upstream
        then redeploy_adapter r policy_id a
        else return tt
    emit (allowance r policy_id)
    tag ← expect (etag_for host (next_revision prev.revision))
    return
        (record { status = 200; location = none; etag = some tag; body = adapter_response host a })

  unfoldable pub update_adapter :
      String → UpdateAdapterBody → Handler M D (Response V AdapterResponse)
  update_adapter name body = check_update_adapter name body >>= rewrite_adapter name body

  abbrev undeploy_adapter : Request V → Option String → String → Handler M D Unit
  undeploy_adapter r policy_id name = do
    deleted ← on_cluster (state.deployment.delete (handle_for name))
    or_deny r policy_id (undeployed deleted)

  -- the checks of `delete_adapter`, and the policy and the record that they find
  unfoldable pub check_delete_adapter : String → Handler M D (Option String × Adapter)
  unfolding ◌>>=◌ ◌>>◌
  check_delete_adapter name = do
    let r = request_for delete name
    policy_id ← or_deny r none (authorize state.authz user adapter delete name [])
    answer ← stored name
    existing ← or_deny r policy_id (as_app (found (not_found_adapter name) answer))
    rev ← try_app (parse_if_match host headers)
    or_deny r policy_id (check_revision rev existing.revision)
    return (policy_id, existing)

  -- the rest of `delete_adapter`
  unfoldable pub remove_adapter : String → Option String × Adapter → Handler M D ℕ
  unfolding ◌>>=◌ ◌>>◌
  remove_adapter name (policy_id, existing) = do
    let r = request_for delete name
    if is_none existing.upstream then undeploy_adapter r policy_id name else return tt
    deleted ← on_store (state.metadata.delete_adapter name)
    try_core deleted
    emit (allowance r policy_id)
    return 204

  unfoldable pub delete_adapter : String → Handler M D ℕ
  delete_adapter name = check_delete_adapter name >>= remove_adapter name

  unfoldable pub get_adapter_status : String → Handler M D DeploymentStatus
  get_adapter_status name = do
    let r = request_for read name
    policy_id ← or_deny r none (authorize state.authz user adapter read name [])
    answer ← stored name
    _ ← try_core (found (not_found_adapter name) answer)
    answered ← reads (λ w. state.deployment.status (handle_for name) w.cluster)
    status ← try_core answered
    emit (allowance r policy_id)
    return status
