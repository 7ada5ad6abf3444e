-- ===== src/Gateway/Config.antt =====
-- crates/gateway/src/config.rs: the configuration, and the defaults that its fields have where the
-- file and the environment leave them out. A path is its text, a duration its nanoseconds.
use mcp_oxide.Prelude.{ℕ, ◌*◌, String, Bool, false, Option, some, List, [], ◌∷◌}

-- a `SocketAddr`, as its two parts
pub record SocketAddr : Type 0 where
  pub ip : String
  pub port : ℕ

pub record ServerConfig : Type 0 where
  pub bind : SocketAddr
  pub request_timeout_ms : ℕ
  pub max_body_bytes : ℕ

abbrev pub default_bind : SocketAddr
default_bind = record { ip = "0.0.0.0"; port = 8080 }

abbrev pub default_request_timeout_ms : ℕ
default_request_timeout_ms = 30000

abbrev pub default_body_limit : ℕ
default_body_limit = 1024 * 1024

abbrev pub default_server : ServerConfig
default_server = record {
  bind = default_bind;
  request_timeout_ms = default_request_timeout_ms;
  max_body_bytes = default_body_limit;
}

pub record LogConfig : Type 0 where
  pub json : Bool

pub data MetadataStoreConfig : Type 0 where
  in_memory : MetadataStoreConfig
  postgres : (dsn : String) → MetadataStoreConfig
  sqlite : (path : String) → MetadataStoreConfig

pub record OidcGenericConfig : Type 0 where
  pub issuer : String
  pub audiences : List String
  pub jwks_cache_ttl_s : ℕ
  pub clock_skew_s : ℕ
  pub algorithms : List String
  pub roles_claim_paths : List String
  pub groups_claim_paths : List String
  pub tenant_claim_path : Option String
  pub http_timeout_ms : ℕ

abbrev pub default_jwks_ttl : ℕ
default_jwks_ttl = 300

abbrev pub default_clock_skew : ℕ
default_clock_skew = 30

abbrev pub default_algorithms : List String
default_algorithms = "RS256" ∷ "ES256" ∷ []

abbrev pub default_role_paths : List String
default_role_paths = "realm_access.roles" ∷ "roles" ∷ []

abbrev pub default_group_paths : List String
default_group_paths = "groups" ∷ []

abbrev pub default_tenant_path : Option String
default_tenant_path = some "tenant"

abbrev pub default_http_timeout_ms : ℕ
default_http_timeout_ms = 5000

-- the OIDC section in which only the issuer is given
abbrev pub oidc_defaults : String → OidcGenericConfig
oidc_defaults issuer = record {
  issuer = issuer;
  audiences = [];
  jwks_cache_ttl_s = default_jwks_ttl;
  clock_skew_s = default_clock_skew;
  algorithms = default_algorithms;
  roles_claim_paths = default_role_paths;
  groups_claim_paths = default_group_paths;
  tenant_claim_path = default_tenant_path;
  http_timeout_ms = default_http_timeout_ms;
}

pub record StaticJwtFileConfig : Type 0 where
  pub algorithm : String
  pub key_path : String
  pub issuer : Option String
  pub audiences : List String
  pub clock_skew_s : ℕ
  pub roles_claim_paths : List String
  pub groups_claim_paths : List String
  pub tenant_claim_path : Option String

pub data IdentityConfig : Type 0 where
  noop : IdentityConfig
  oidc_generic : OidcGenericConfig → IdentityConfig
  static_jwt : StaticJwtFileConfig → IdentityConfig

pub data AuthzConfig : Type 0 where
  deny_all : AuthzConfig
  yaml_rbac : (path : String) → AuthzConfig

pub data DeploymentConfig : Type 0 where
  noop_external : DeploymentConfig
  docker :
      (socket network : String) (connect_timeout_s : ℕ) (allowed_registries : List String)
      (require_digest_pinning : Bool)
      → DeploymentConfig

abbrev pub default_docker_socket : String
default_docker_socket = "/var/run/docker.sock"

abbrev pub default_docker_network : String
default_docker_network = "mcp-oxide"

abbrev pub default_docker_connect_timeout_s : ℕ
default_docker_connect_timeout_s = 120

-- the Docker section in which nothing is given
abbrev pub docker_defaults : DeploymentConfig
docker_defaults =
    docker default_docker_socket default_docker_network default_docker_connect_timeout_s [] false

pub record ProvidersConfig : Type 0 where
  pub identity : IdentityConfig
  pub authz : AuthzConfig
  pub metadata_store : MetadataStoreConfig
  pub deployment : DeploymentConfig

pub record UpstreamConfig : Type 0 where
  pub connect_timeout_ms : ℕ
  pub request_timeout_ms : ℕ
  pub pool_max_idle_per_host : ℕ

abbrev pub default_connect_timeout_ms : ℕ
default_connect_timeout_ms = 2000

abbrev pub default_upstream_timeout_ms : ℕ
default_upstream_timeout_ms = 25000

abbrev pub default_pool_idle : ℕ
default_pool_idle = 32

abbrev pub default_upstream : UpstreamConfig
default_upstream = record {
  connect_timeout_ms = default_connect_timeout_ms;
  request_timeout_ms = default_upstream_timeout_ms;
  pool_max_idle_per_host = default_pool_idle;
}

-- `Duration::from_millis` and `Duration::from_secs`
abbrev pub from_millis : ℕ → ℕ
from_millis n = n * 1000000

abbrev pub from_secs : ℕ → ℕ
from_secs n = n * 1000000000

abbrev pub connect_timeout : UpstreamConfig → ℕ
connect_timeout c = from_millis c.connect_timeout_ms

abbrev pub request_timeout : UpstreamConfig → ℕ
request_timeout c = from_millis c.request_timeout_ms

pub record StaticAdapter : Type 0 where
  pub name : String
  pub upstream : String
  pub required_roles : List String
  pub tags : List String

pub record Config : Type 0 where
  pub server : ServerConfig
  pub logs : LogConfig
  pub providers : ProvidersConfig
  pub upstream : UpstreamConfig
  pub static_adapters : List StaticAdapter

-- the configuration of an empty file and environment
abbrev pub default_config : Config
default_config = record {
  server = default_server;
  logs = record { json = false };
  providers = record {
    identity = noop;
    authz = deny_all;
    metadata_store = in_memory;
    deployment = noop_external;
  };
  upstream = default_upstream;
  static_adapters = [];
}
