-- ===== src/Gateway/Bootstrap/Providers.antt =====
-- crates/gateway/src/state.rs: the functions that choose a provider for each part of the
-- configuration. An `anyhow` error is its text.

use mcp_oxide.Prelude.{ℕ, String, not, Option, none, some, List, [], ◌∷◌, keep, ◌==◌, if◌then◌else◌}
use mcp_oxide.Text.{format, starts_with}
use mcp_oxide.Core.Error.{Error, to_string, Result, ok, err}
use mcp_oxide.Core.Providers.{IdProvider, PolicyEngine}
use mcp_oxide.Authz.{deny_all_engine}
use mcp_oxide.Authz.YamlRbac.{YamlRbacPolicy, YamlRbacEngine, yaml_rbac_engine, from_path}
use mcp_oxide.Deployment.Docker.Daemon.{Daemon}
use mcp_oxide.Deployment.Docker.Policy.{DockerProvider}
use mcp_oxide.Deployment.Docker.Provider.{Connector}
use mcp_oxide.Deployment.Docker.Provider
use mcp_oxide.Identity.{noop_id_provider}
use mcp_oxide.Identity.Claims.{ClaimExtractor}
use mcp_oxide.Identity.Jwt.{
  Algorithm, hs256, hs384, hs512, es256, es384, rs256, rs384, rs512, ed_dsa, algorithm_text,
  Jsonwebtoken,
}
use mcp_oxide.Identity.StaticJwt.{StaticJwtConfig, StaticJwtProvider, static_jwt_provider}
use mcp_oxide.Identity.StaticJwt
use mcp_oxide.Identity.Oidc.{OidcConfig, OidcProvider, OidcState, Net}
use mcp_oxide.Identity.Oidc.Validate.{oidc_provider}
use mcp_oxide.Identity.Oidc.Validate
use mcp_oxide.Metadata.Sql.{Database}
use mcp_oxide.Metadata.Sql
use mcp_oxide.Gateway.State.{ResolvedAdapter}
use mcp_oxide.Gateway.Config.{
  IdentityConfig, noop, oidc_generic, static_jwt, OidcGenericConfig, StaticJwtFileConfig,
  AuthzConfig, deny_all, yaml_rbac, MetadataStoreConfig, in_memory, postgres, sqlite,
  DeploymentConfig, noop_external, docker, StaticAdapter, from_millis, from_secs,
}

abbrev pub of_static : StaticAdapter → ResolvedAdapter
of_static v = record {
  name = v.name;
  upstream = v.upstream;
  required_roles = v.required_roles;
  tags = v.tags;
}

-- the loop that fills the map of the adapters: of two of one name the later one stays
unfoldable pub adapter_map :
    List ResolvedAdapter → List (String × ResolvedAdapter) → List (String × ResolvedAdapter)
adapter_map [] m = m
adapter_map (a ∷ adapters) m =
    adapter_map adapters ((a.name, a) ∷ keep (λ entry. not (entry.0 == a.name)) m)

-- what `reqwest::Client::builder` is given
pub record ClientSpec : Type 0 where
  pub connect_timeout : ℕ
  pub timeout : ℕ
  pub pool_max_idle_per_host : Option ℕ

-- the provider of identity that was chosen, with the state of the one that has some
pub data ChosenIdentity (K N : Type 0) : Type 0 where
  unconfigured : ChosenIdentity K N
  by_oidc : OidcProvider → OidcState K N → ChosenIdentity K N
  by_static_jwt : StaticJwtProvider K → ChosenIdentity K N

pub data ChosenStore (Q : Type 0) : Type 0 where
  in_memory_store : ChosenStore Q
  sqlite_store : Q → ChosenStore Q

pub data ChosenDeployment (D : Type 0) : Type 0 where
  external : ChosenDeployment D
  by_docker : Daemon D → DockerProvider → ChosenDeployment D

abbrev pub identity_provider :
    {K N : Type 0} → Jsonwebtoken K → Net N → ChosenIdentity K N → IdProvider
identity_provider jwt http unconfigured = noop_id_provider
identity_provider jwt http (by_oidc p st) = oidc_provider jwt http p st
identity_provider jwt http (by_static_jwt p) = static_jwt_provider jwt p

pub record Wired (K N Q D C : Type 0) : Type 0 where
  pub identity : ChosenIdentity K N
  pub authz : PolicyEngine
  pub deployment : ChosenDeployment D
  pub metadata : ChosenStore Q
  pub http : C
  pub adapters : List (String × ResolvedAdapter)

-- What the start-up calls of the system and of other crates: the files, the parsers of an
-- algorithm's name and of a policy, the key of an HMAC secret, the client, and the connections.
pub record System (K Q D C : Type 0) : Type 0 where
  pub algorithm_of : String → Option Algorithm
  pub read : String → Result String String
  pub from_yaml : String → Result String YamlRbacPolicy
  pub from_secret : String → K
  pub open_pool : ℕ → String → Result String Q
  pub connector : Connector D
  pub build_client : ClientSpec → Result String C

abbrev text_of : {A : Type 0} → Result Error A → Result String A
text_of (ok a) = ok a
text_of (err e) = err (to_string e)

module _ {K N Q D C J : Type 0} (sys : System K Q D C) (jwt : Jsonwebtoken K) (http : Net N)
    (db : Database J Q) where
  abbrev alg_result : String → Option Algorithm → Result String Algorithm
  alg_result s (some alg) = ok alg
  alg_result s none = err (format ("invalid algorithm: " ∷ s ∷ []))

  unfoldable pub parse_alg : String → Result String Algorithm
  parse_alg s = alg_result s (sys.algorithm_of s)

  abbrev onto_algs :
      Result String Algorithm → Result String (List Algorithm) → Result String (List Algorithm)
  onto_algs (err e) rest = err e
  onto_algs (ok alg) (err e) = err e
  onto_algs (ok alg) (ok algs) = ok (alg ∷ algs)

  unfoldable pub parse_algs : List String → Result String (List Algorithm)
  parse_algs [] = ok []
  parse_algs (s ∷ ss) = onto_algs (parse_alg s) (parse_algs ss)

  abbrev extractor_of : List String → List String → Option String → ClaimExtractor
  extractor_of roles groups tenant = record {
    role_paths = roles;
    group_paths = groups;
    tenant_path = tenant;
    scopes_path = "scope";
  }

  unfoldable pub oidc_config : OidcGenericConfig → List Algorithm → OidcConfig
  oidc_config o algorithms = record {
    issuer = o.issuer;
    audiences = o.audiences;
    algorithms = algorithms;
    jwks_cache_ttl = from_secs o.jwks_cache_ttl_s;
    clock_skew_s = o.clock_skew_s;
    http_timeout = from_millis o.http_timeout_ms;
    extractor = extractor_of o.roles_claim_paths o.groups_claim_paths o.tenant_claim_path;
  }

  abbrev by_connection :
      Result Error OidcProvider × OidcState K N → Result String (ChosenIdentity K N)
  by_connection (ok p, st) = ok (by_oidc p st)
  by_connection (err e, st) = err (to_string e)

  abbrev oidc_identity :
      OidcGenericConfig → N → Result String (List Algorithm) → Result String (ChosenIdentity K N)
  oidc_identity o net (err e) = err e
  oidc_identity o net (ok algs) = by_connection (Validate.connect jwt http (oidc_config o algs) net)

  -- the key of a file, by the algorithm that it is for
  unfoldable pub static_key : Algorithm → String → Result String K
  static_key rs256 bytes = jwt.from_rsa_pem bytes
  static_key rs384 bytes = jwt.from_rsa_pem bytes
  static_key rs512 bytes = jwt.from_rsa_pem bytes
  static_key es256 bytes = jwt.from_ec_pem bytes
  static_key es384 bytes = jwt.from_ec_pem bytes
  static_key ed_dsa bytes = jwt.from_ed_pem bytes
  static_key hs256 bytes = ok (sys.from_secret bytes)
  static_key hs384 bytes = ok (sys.from_secret bytes)
  static_key hs512 bytes = ok (sys.from_secret bytes)
  static_key other bytes =
      err (format ("unsupported static-jwt algorithm: " ∷ algorithm_text other ∷ []))

  abbrev static_identity :
      StaticJwtFileConfig → Algorithm → Result String K → Result String (ChosenIdentity K N)
  static_identity s alg (err e) = err e
  static_identity s alg (ok key) = ok (
      by_static_jwt (
        StaticJwt.«new» (record {
          algorithm = alg;
          key = key;
          issuer = s.issuer;
          audiences = s.audiences;
          clock_skew_s = s.clock_skew_s;
          extractor = extractor_of s.roles_claim_paths s.groups_claim_paths s.tenant_claim_path;
        })))

  abbrev static_read :
      StaticJwtFileConfig → Algorithm → Result String String → Result String (ChosenIdentity K N)
  static_read s alg (err e) = err e
  static_read s alg (ok bytes) = static_identity s alg (static_key alg bytes)

  abbrev static_parsed :
      StaticJwtFileConfig → Result String Algorithm → Result String (ChosenIdentity K N)
  static_parsed s (err e) = err e
  static_parsed s (ok alg) = static_read s alg (sys.read s.key_path)

  unfoldable pub build_identity : IdentityConfig → N → Result String (ChosenIdentity K N)
  build_identity noop net = ok unconfigured
  build_identity (oidc_generic o) net = oidc_identity o net (parse_algs o.algorithms)
  build_identity (static_jwt s) net = static_parsed s (parse_alg s.algorithm)

  abbrev engine_of : Result Error YamlRbacEngine → Result String PolicyEngine
  engine_of (ok engine) = ok (yaml_rbac_engine engine)
  engine_of (err e) = err (to_string e)

  unfoldable pub build_authz : AuthzConfig → Result String PolicyEngine
  build_authz deny_all = ok deny_all_engine
  build_authz (yaml_rbac path) = engine_of (from_path sys.from_yaml sys.read path)

  abbrev store_of : Result Error Q → Result String (ChosenStore Q)
  store_of (ok q) = ok (sqlite_store q)
  store_of (err e) = err (to_string e)

  unfoldable pub sqlite_url : String → String
  sqlite_url path =
      if starts_with path "sqlite:" then path else format ("sqlite://" ∷ path ∷ "?mode=rwc" ∷ [])

  unfoldable pub build_metadata : MetadataStoreConfig → Result String (ChosenStore Q)
  build_metadata in_memory = ok in_memory_store
  build_metadata (sqlite path) = store_of (Sql.connect db sys.open_pool (sqlite_url path))
  build_metadata (postgres dsn) =
      err "postgres metadata store is not yet implemented (Phase 2 scope: sqlite)"

  abbrev by_daemon :
      Result Error (Daemon D × DockerProvider) × D → Result String (ChosenDeployment D × D)
  by_daemon (ok (daemon, p), d) = ok (by_docker daemon p, d)
  by_daemon (err e, d) = err (to_string e)

  unfoldable pub build_deployment : DeploymentConfig → D → Result String (ChosenDeployment D × D)
  build_deployment noop_external d = ok (external, d)
  build_deployment (docker socket network connect_timeout_s allowed pinned) d = by_daemon (
      Provider.«new» sys.connector
        (record {
          socket = socket;
          network = network;
          connect_timeout_s = connect_timeout_s;
          allowed_registries = allowed;
          require_digest_pinning = pinned;
        })
        d)
