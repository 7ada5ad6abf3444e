-- ===== src/Deployment/Docker/Provider.antt =====
-- crates/deployment/src/docker.rs: `DockerProvider::new` and the `DeploymentProvider` that it is.
pub mod Applied
pub mod Handles
use mcp_oxide.Prelude.{
  ℕ, String, Bool, true, false, ◌||◌, Option, none, some, List, [], ◌∷◌, ◌==◌, unwrap_or,
  if◌then◌else◌,
}
use mcp_oxide.Text.{format, is_empty, split_once}
use mcp_oxide.Core.Error.{Error, internal, Result, ok, err}
use mcp_oxide.Core.Model.{Endpoint}
use mcp_oxide.Core.Providers.{
  DeploymentSpec, DeploymentHandle, DeploymentStatus, LogLine, BackendEndpoint, DeploymentProvider,
}
use mcp_oxide.Deployment.Docker.Daemon.{
  Daemon, DaemonError, ContainerInfo, ContainerState, ContainerStateStatus, created, running,
  paused, restarting, removing, exited, dead, empty, Floats,
}
use mcp_oxide.Deployment.Docker.Policy.{
  DockerConfig, DockerProvider, Workload, container_name, kind_str, extract_spec,
}
use mcp_oxide.Deployment.Docker.Container.{
  has_status, ensure_network, create_container, host_of, url_text, inspected, resolve_endpoint_url,
}

abbrev status_text : ContainerStateStatus → String
status_text created = "created"
status_text running = "running"
status_text paused = "paused"
status_text restarting = "restarting"
status_text removing = "removing"
status_text exited = "exited"
status_text dead = "dead"
status_text empty = "unknown"

unfoldable pub map_status : Option ContainerStateStatus → Option String
map_status none = none
map_status (some s) = some (status_text s)

abbrev says_running : Option ContainerState → Bool
says_running none = false
says_running (some state) = unwrap_or false state.running

-- `Result::ok`
abbrev to_option : {A : Type 0} → Result Error A → Option A
to_option (ok a) = some a
to_option (err e) = none

-- how a connection is made, by `bollard`: to the default socket or to one that is named
pub record Connector (D : Type 0) : Type 0 where
  pub with_socket_defaults : Result String (Daemon D)
  pub with_socket : String → (timeout : ℕ) → Result String (Daemon D)

module _ {D : Type 0} (connector : Connector D) where
  unfoldable pub connect : DockerConfig → Result String (Daemon D)
  connect config =
      if config.socket == "unix:///var/run/docker.sock" || is_empty config.socket
      then connector.with_socket_defaults
      else connector.with_socket config.socket config.connect_timeout_s

  abbrev over_network :
      Daemon D
      → DockerProvider
      → Result Error (Unit {0}) × D
      → Result Error (Daemon D × DockerProvider) × D
  over_network docker p (ok _, d) = (ok (docker, p), d)
  over_network docker p (err e, d) = (err e, d)

  abbrev connected :
      DockerConfig → Result String (Daemon D) → D → Result Error (Daemon D × DockerProvider) × D
  connected config (err text) d = (err (internal text), d)
  connected config (ok docker) d =
      let p : DockerProvider = record {
        network = config.network;
        allowed_registries = config.allowed_registries;
        require_digest_pinning = config.require_digest_pinning;
      } in
      over_network docker p (ensure_network docker p d)

  unfoldable pub «new» : DockerConfig → D → Result Error (Daemon D × DockerProvider) × D
  «new» config d = connected config (connect config) d

module _ {D : Type 0} (docker : Daemon D) (p : DockerProvider) where
  -- the container is there and runs
  unfoldable pub is_running : String → D → Bool
  is_running name d = elim (docker.inspect_container name d) [
    | ok info ↦ says_running info.state
    | err e ↦ false
  ]

  unfoldable pub handle_at : String → Endpoint → D → DeploymentHandle
  handle_at name endpoint d = record {
    id = name;
    namespace = some p.network;
    endpoint_url = to_option (resolve_endpoint_url docker p name endpoint.port endpoint.path d);
  }

  module _ {F : Type 0} (floats : Floats F) where
    abbrev deployed : Endpoint → Result Error String × D → Result Error DeploymentHandle × D
    deployed endpoint (err e, d) = (err e, d)
    deployed endpoint (ok name, d) = (ok (handle_at name endpoint d), d)

    abbrev applied : DeploymentSpec → Result Error Workload → D → Result Error DeploymentHandle × D
    applied spec (err e) d = (err e, d)
    applied spec (ok work) d =
        let name = container_name (kind_str spec.kind) spec.name in
        let fresh = deployed work.endpoint (create_container docker floats p spec d) in
        if is_running name d then (ok (handle_at name work.endpoint d), d) else fresh

    unfoldable pub apply : DeploymentSpec → D → Result Error DeploymentHandle × D
    apply spec d = applied spec (extract_spec spec) d

  abbrev removed : Result DaemonError (Unit {0}) × D → Result Error (Unit {0}) × D
  removed (ok _, d) = (ok tt, d)
  removed (err e, d) =
      if has_status 404 e
      then (ok tt, d)
      else (err (internal (format ("remove container: " ∷ docker.to_text e ∷ []))), d)

  -- a container that does not stop is only logged, and removed all the same
  unfoldable pub delete : DeploymentHandle → D → Result Error (Unit {0}) × D
  delete handle d =
      removed (docker.remove_container handle.id true (docker.stop_container handle.id 10 d).1)

  abbrev status_from : Option ContainerState → Result Error DeploymentStatus
  status_from none = err (internal "no state")
  status_from (some state) =
      let runs = unwrap_or false state.running in
      ok (record {
        ready = runs;
        replicas = 1;
        ready_replicas = if runs then 1 else 0;
        message = map_status state.status;
      })

  unfoldable pub status : DeploymentHandle → D → Result Error DeploymentStatus
  status handle d = elim (inspected docker handle.id d) [
    | ok info ↦ status_from info.state
    | err e ↦ err e
  ]

  abbrev endpoint_list : String → String → List BackendEndpoint
  endpoint_list id url = record { url = url; backend_id = record { backend = id } } ∷ []

  -- without the URL of `apply` the port and the path are fixed
  abbrev looked_up : String → Result Error ContainerInfo → Result Error (List BackendEndpoint)
  looked_up id (err e) = err e
  looked_up id (ok info) =
      ok (endpoint_list id (format ("http://" ∷ host_of p id info ∷ ":8080/mcp" ∷ [])))

  unfoldable pub endpoints : DeploymentHandle → D → Result Error (List BackendEndpoint)
  endpoints handle d = elim handle.endpoint_url [
    | some url ↦ ok (endpoint_list handle.id url)
    | none ↦ looked_up handle.id (inspected docker handle.id d)
  ]

  -- a line of the log behind its time stamp; a line without a blank is left empty
  abbrev log_line : Option (String × String) → LogLine
  log_line none = record { ts = ""; line = "" }
  log_line (some (ts, rest)) = record { ts = ts; line = rest }

  unfoldable pub log_lines : List (Result DaemonError String) → List LogLine
  log_lines [] = []
  log_lines (ok line ∷ events) = log_line (split_once " " line) ∷ log_lines events
  log_lines (err e ∷ events) = log_lines events

  unfoldable pub logs : DeploymentHandle → D → List LogLine
  logs handle d = log_lines (docker.logs handle.id d)

  abbrev pub docker_provider : {F : Type 0} → Floats F → DeploymentProvider D
  docker_provider floats = record {
    apply = apply floats;
    delete = delete;
    status = status;
    endpoints = endpoints;
  }
