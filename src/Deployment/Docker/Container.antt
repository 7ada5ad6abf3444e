-- ===== src/Deployment/Docker/Container.antt =====
-- The calls of the daemon that crates/deployment/src/docker.rs composes: the network, the image,
-- the container and its address. A call returns what it comes back with and the daemon's new state.
use mcp_oxide.Prelude.{
  ℕ, String, Bool, true, false, Option, none, some, List, [], ◌∷◌, map, ◌==◌, nat_eq, unwrap_or,
  if◌then◌else◌,
}
use mcp_oxide.Text.{format, is_empty, strip_prefix, starts_with}
use mcp_oxide.Text.Decimal.{to_decimal}
use mcp_oxide.Core.Error.{Error, internal, Result, ok, err}
use mcp_oxide.Core.Model.{EnvVar, Resources}
use mcp_oxide.Core.Providers.{DeploymentSpec}
use mcp_oxide.Deployment.Image.{ImageRef, parse, effective_tag}
use mcp_oxide.Deployment.Docker.Daemon.{
  Daemon, DaemonError, server_error, other_error, ContainerInfo, NetworkSettings, HostConfig,
  unless_stopped, Config, Floats,
}
use mcp_oxide.Deployment.Docker.Limits.{parse_cpu_limit, parse_memory_limit}
use mcp_oxide.Deployment.Docker.Policy.{
  DockerProvider, Workload, container_name, kind_str, check_image_policy, extract_spec,
}

-- an answer with this status code
abbrev pub has_status : ℕ → DaemonError → Bool
has_status n (server_error code text) = nat_eq code n
has_status n (other_error text) = false

-- what `CreateImageOptions` names beside the image
unfoldable pub pull_tag : ImageRef → String
pull_tag image = elim image.digest [
  | some digest ↦ format ("@" ∷ digest ∷ [])
  | none ↦ effective_tag image
]

-- `k=v` for the environment of a container
abbrev env_text : EnvVar → String
env_text e = format (e.name ∷ "=" ∷ e.value ∷ [])

module _ {F : Type 0} (floats : Floats F) (p : DockerProvider) where
  unfoldable pub host_config : Resources → HostConfig
  host_config resources = record {
    network_mode = some p.network;
    readonly_rootfs = some true;
    cap_drop = some ("ALL" ∷ []);
    security_opt = some ("no-new-privileges:true" ∷ []);
    pids_limit = some 256;
    auto_remove = some false;
    restart_policy = some unless_stopped;
    tmpfs = some (("/tmp", "rw,noexec,nosuid,size=64m") ∷ []);
    nano_cpus = parse_cpu_limit floats resources.cpu;
    memory = parse_memory_limit resources.memory;
    memory_swap = parse_memory_limit resources.memory;
    oom_score_adj = some 500;
  }

  unfoldable pub container_config : DeploymentSpec → Workload → Config
  container_config spec work = record {
    image = some work.reference;
    env = some (map env_text work.env);
    labels = some (
        ("mcp-oxide.io/managed", "true")
        ∷ ("mcp-oxide.io/kind", kind_str spec.kind)
        ∷ ("mcp-oxide.io/name", spec.name)
        ∷ []);
    exposed_ports = some (format (to_decimal work.endpoint.port ∷ "/tcp" ∷ []) ∷ []);
    user = some "65532:65532";
    host_config = some (host_config work.resources);
  }

module _ {D : Type 0} (docker : Daemon D) where
  abbrev failed : {A : Type 0} → String → DaemonError → Result Error A
  failed what e = err (internal (format (what ∷ docker.to_text e ∷ [])))

  abbrev network_created : Result DaemonError (Unit {0}) × D → Result Error (Unit {0}) × D
  network_created (ok _, d) = (ok tt, d)
  network_created (err e, d) = (failed "create network: " e, d)

  abbrev network_seen :
      DockerProvider → Result DaemonError (Unit {0}) → D → Result Error (Unit {0}) × D
  network_seen p (ok _) d = (ok tt, d)
  network_seen p (err e) d =
      if has_status 404 e
      then network_created (docker.create_network p.network "bridge" true d)
      else (failed "inspect network: " e, d)

  unfoldable pub ensure_network : DockerProvider → D → Result Error (Unit {0}) × D
  ensure_network p d = network_seen p (docker.inspect_network p.network d) d

  -- the loop over the events of a pull, which the first error ends
  unfoldable pub pull_events : List (Result DaemonError (Option String)) → Result Error (Unit {0})
  pull_events [] = ok tt
  pull_events (ok status ∷ events) = pull_events events
  pull_events (err e ∷ events) = failed "pull image: " e

  unfoldable pub pull_image : ImageRef → D → Result Error (Unit {0}) × D
  pull_image image d =
      let (events, d') = docker.create_image image.name (pull_tag image) d in
      (pull_events events, d')

  abbrev started : String → Result DaemonError (Unit {0}) × D → Result Error String × D
  started name (ok _, d) = (ok name, d)
  started name (err e, d) = (failed "start container: " e, d)

  -- the result of joining the network is dropped
  unfoldable pub connect_and_start : DockerProvider → String → D → Result Error String × D
  connect_and_start p name d =
      started name (docker.start_container name (docker.connect_network p.network name d).1)

  -- a container of this name that is there already is taken over
  abbrev pub made :
      DockerProvider → String → Result DaemonError (Unit {0}) × D → Result Error String × D
  made p name (ok _, d) = connect_and_start p name d
  made p name (err e, d) =
      if has_status 409 e then connect_and_start p name d else (failed "create container: " e, d)

  module _ {F : Type 0} (floats : Floats F) where
    abbrev pulled :
        DockerProvider
        → DeploymentSpec
        → Workload
        → Result Error (Unit {0}) × D
        → Result Error String × D
    pulled p spec work (err e, d) = (err e, d)
    pulled p spec work (ok _, d) =
        let name = container_name (kind_str spec.kind) spec.name in
        made p name (docker.create_container name (container_config floats p spec work) d)

    abbrev checked :
        DockerProvider
        → DeploymentSpec
        → Workload
        → ImageRef
        → Result Error (Unit {0})
        → D
        → Result Error String × D
    checked p spec work image (err e) d = (err e, d)
    checked p spec work image (ok _) d = pulled p spec work (pull_image image d)

    abbrev parsed :
        DockerProvider
        → DeploymentSpec
        → Workload
        → Result Error ImageRef
        → D
        → Result Error String × D
    parsed p spec work (err e) d = (err e, d)
    parsed p spec work (ok image) d = checked p spec work image (check_image_policy p image) d

    abbrev extracted :
        DockerProvider → DeploymentSpec → Result Error Workload → D → Result Error String × D
    extracted p spec (err e) d = (err e, d)
    extracted p spec (ok work) d = parsed p spec work (parse work.reference) d

    unfoldable pub create_container : DockerProvider → DeploymentSpec → D → Result Error String × D
    create_container p spec d = extracted p spec (extract_spec spec) d

-- the address on the provider's network, unless that is empty
abbrev address_on : String → List (String × Option String) → Option String
address_on network [] = none
address_on network (entry ∷ rest) =
    let other = address_on network rest in if entry.0 == network then entry.1 else other

abbrev unless_empty : Option String → Option String
unless_empty none = none
unless_empty (some s) = if is_empty s then none else some s

abbrev in_networks : String → Option (List (String × Option String)) → Option String
in_networks network none = none
in_networks network (some nets) = address_on network nets

abbrev in_settings : String → Option NetworkSettings → Option String
in_settings network none = none
in_settings network (some settings) = in_networks network settings.networks

-- the host of a container: its address, or else its name, without the slash that the daemon puts
-- before it
unfoldable pub host_of : DockerProvider → String → ContainerInfo → String
host_of p id info =
    let name = unwrap_or id info.name in
    let dns = unwrap_or name (strip_prefix "/" name) in
    unwrap_or dns (unless_empty (in_settings p.network info.network_settings))

unfoldable pub url_text : String → ℕ → String → String
url_text host port path =
    let clean_path = if starts_with path "/" then path else format ("/" ∷ path ∷ []) in
    format ("http://" ∷ host ∷ ":" ∷ to_decimal port ∷ clean_path ∷ [])

module _ {D : Type 0} (docker : Daemon D) where
  unfoldable pub inspected : String → D → Result Error ContainerInfo
  inspected id d = elim (docker.inspect_container id d) [
    | ok info ↦ ok info
    | err e ↦ err (internal (format ("inspect container: " ∷ docker.to_text e ∷ [])))
  ]

  unfoldable pub resolve_endpoint_url :
      DockerProvider → String → ℕ → String → D → Result Error String
  resolve_endpoint_url p id port path d = elim (inspected id d) [
    | ok info ↦ ok (url_text (host_of p id info) port path)
    | err e ↦ err e
  ]
