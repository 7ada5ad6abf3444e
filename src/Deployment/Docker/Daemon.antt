-- ===== src/Deployment/Docker/Daemon.antt =====
-- The calls of the `bollard` crate that crates/deployment/src/docker.rs makes. `D` is the state of
-- the Docker daemon; what a call does to it is unknown.
use mcp_oxide.Prelude.{ℕ, String, Bool, Option, List}
use mcp_oxide.Core.Error.{Result}

-- `bollard::errors::Error`: an answer with a status code, or anything else, with its text
pub data DaemonError : Type 0 where
  server_error : (status_code : ℕ) (text : String) → DaemonError
  other_error : (text : String) → DaemonError

pub data ContainerStateStatus : Type 0 where
  empty created running paused restarting removing exited dead : ContainerStateStatus

pub record ContainerState : Type 0 where
  pub running : Option Bool
  pub status : Option ContainerStateStatus

-- the address of a container on each of its networks
pub record NetworkSettings : Type 0 where
  pub networks : Option (List (String × Option String))

pub record ContainerInfo : Type 0 where
  pub name : Option String
  pub state : Option ContainerState
  pub network_settings : Option NetworkSettings

pub data RestartPolicyName : Type 0 where
  no_restart always unless_stopped on_failure : RestartPolicyName

-- the fields of `HostConfig` that are set
pub record HostConfig : Type 0 where
  pub network_mode : Option String
  pub readonly_rootfs : Option Bool
  pub cap_drop : Option (List String)
  pub security_opt : Option (List String)
  pub pids_limit : Option ℕ
  pub auto_remove : Option Bool
  pub restart_policy : Option RestartPolicyName
  pub tmpfs : Option (List (String × String))
  pub nano_cpus : Option ℕ
  pub memory : Option ℕ
  pub memory_swap : Option ℕ
  pub oom_score_adj : Option ℕ

pub record Config : Type 0 where
  pub image : Option String
  pub env : Option (List String)
  pub labels : Option (List (String × String))
  pub exposed_ports : Option (List String)
  pub user : Option String
  pub host_config : Option HostConfig

pub record Daemon (D : Type 0) : Type 0 where
  pub inspect_network : String → D → Result DaemonError (Unit {0})
  pub create_network :
      (name driver : String) (check_duplicate : Bool) → D → Result DaemonError (Unit {0}) × D
  -- the events of a pull, each with the status that it may report
  pub create_image : (from_image tag : String) → D → List (Result DaemonError (Option String)) × D
  pub create_container : String → Config → D → Result DaemonError (Unit {0}) × D
  pub connect_network : (network container : String) → D → Result DaemonError (Unit {0}) × D
  pub start_container : String → D → Result DaemonError (Unit {0}) × D
  pub stop_container : String → (seconds : ℕ) → D → Result DaemonError (Unit {0}) × D
  pub remove_container : String → (force : Bool) → D → Result DaemonError (Unit {0}) × D
  pub inspect_container : String → D → Result DaemonError ContainerInfo
  -- the lines of the two output streams, each with its time stamp before it
  pub logs : String → D → List (Result DaemonError String)
  pub to_text : DaemonError → String

-- `f64`, as far as a CPU limit needs it
pub record Floats (F : Type 0) : Type 0 where
  pub parse : String → Option F
  pub of_nat : ℕ → F
  pub is_finite : F → Bool
  pub le : F → F → Bool
  pub times : F → F → F
  pub round : F → F
  pub as_i64 : F → ℕ
