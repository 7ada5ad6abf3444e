-- ===== src/Gateway/Bootstrap/Wire.antt =====
-- crates/gateway/src/state.rs: `AppState::bootstrap` and `AppStateBuilder::build`.
use mcp_oxide.Prelude.{String, Option, none, some, unwrap_or, List, [], ◌∷◌, ◌++◌, map}
use mcp_oxide.Core.Error.{Result, ok, err}
use mcp_oxide.Core.Providers.{IdProvider, PolicyEngine}
use mcp_oxide.Authz.{deny_all_engine}
use mcp_oxide.Identity.{noop_id_provider}
use mcp_oxide.Identity.Jwt.{Jsonwebtoken}
use mcp_oxide.Identity.Oidc.{Net}
use mcp_oxide.Metadata.Sql.{Database}
use mcp_oxide.Gateway.State.{ResolvedAdapter}
use mcp_oxide.Gateway.Config.{Config, connect_timeout, request_timeout, from_secs}
use mcp_oxide.Gateway.Bootstrap.Providers.{
  of_static, adapter_map, ClientSpec, ChosenIdentity, ChosenStore, ChosenDeployment, Wired, System,
  build_identity, build_authz, build_metadata, build_deployment,
}

-- `AppStateBuilder`: the providers that tests set, and the adapters
pub record AppStateBuilder : Type 0 where
  pub identity : Option IdProvider
  pub authz : Option PolicyEngine
  pub adapters : List ResolvedAdapter

abbrev pub empty_builder : AppStateBuilder
empty_builder = record { identity = none; authz = none; adapters = [] }

abbrev pub with_identity : IdProvider → AppStateBuilder → AppStateBuilder
with_identity p b = record b { identity = some p }

abbrev pub with_authz : PolicyEngine → AppStateBuilder → AppStateBuilder
with_authz p b = record b { authz = some p }

abbrev pub with_adapter : ResolvedAdapter → AppStateBuilder → AppStateBuilder
with_adapter a b = record b { adapters = b.adapters ++ (a ∷ []) }

-- What `build` puts together: the other providers are the external deployment and the in-memory
-- stores.
pub record Built (C : Type 0) : Type 0 where
  pub identity : IdProvider
  pub authz : PolicyEngine
  pub http : C
  pub adapters : List (String × ResolvedAdapter)

abbrev builder_client : ClientSpec
builder_client = record {
  connect_timeout = from_secs 2;
  timeout = from_secs 5;
  pool_max_idle_per_host = none;
}

module _ {C : Type 0} (build_client : ClientSpec → Result String C) where
  abbrev built_with : AppStateBuilder → Result String C → Result String (Built C)
  built_with b (err e) = err e
  built_with b (ok client) = ok (record {
    identity = unwrap_or noop_id_provider b.identity;
    authz = unwrap_or deny_all_engine b.authz;
    http = client;
    adapters = adapter_map b.adapters [];
  })

  unfoldable pub build : AppStateBuilder → Result String (Built C)
  build b = built_with b (build_client builder_client)

abbrev pub client_spec : Config → ClientSpec
client_spec cfg = record {
  connect_timeout = connect_timeout cfg.upstream;
  timeout = request_timeout cfg.upstream;
  pool_max_idle_per_host = some cfg.upstream.pool_max_idle_per_host;
}

module _ {K N Q D C J : Type 0} (sys : System K Q D C) (jwt : Jsonwebtoken K) (http : Net N)
    (db : Database J Q) where
  abbrev wired :
      Config
      → ChosenIdentity K N
      → PolicyEngine
      → ChosenStore Q
      → ChosenDeployment D × D
      → Result String C
      → Result String (Wired K N Q D C × D)
  wired cfg identity authz metadata (deployment, d) (err e) = err e
  wired cfg identity authz metadata (deployment, d) (ok client) = ok (
    record {
      identity = identity;
      authz = authz;
      deployment = deployment;
      metadata = metadata;
      http = client;
      adapters = adapter_map (map of_static cfg.static_adapters) [];
    },
    d,
  )

  abbrev deployed :
      Config
      → ChosenIdentity K N
      → PolicyEngine
      → ChosenStore Q
      → Result String (ChosenDeployment D × D)
      → Result String (Wired K N Q D C × D)
  deployed cfg identity authz metadata (err e) = err e
  deployed cfg identity authz metadata (ok chosen) =
      wired cfg identity authz metadata chosen (sys.build_client (client_spec cfg))

  abbrev stored :
      Config
      → ChosenIdentity K N
      → PolicyEngine
      → Result String (ChosenStore Q)
      → D
      → Result String (Wired K N Q D C × D)
  stored cfg identity authz (err e) d = err e
  stored cfg identity authz (ok metadata) d =
      deployed cfg identity authz metadata
        (build_deployment sys jwt http db cfg.providers.deployment d)

  abbrev authorized :
      Config
      → ChosenIdentity K N
      → Result String PolicyEngine
      → D
      → Result String (Wired K N Q D C × D)
  authorized cfg identity (err e) d = err e
  authorized cfg identity (ok authz) d =
      stored cfg identity authz (build_metadata sys jwt http db cfg.providers.metadata_store) d

  abbrev identified :
      Config → Result String (ChosenIdentity K N) → D → Result String (Wired K N Q D C × D)
  identified cfg (err e) d = err e
  identified cfg (ok identity) d =
      authorized cfg identity (build_authz sys jwt http db cfg.providers.authz) d

  -- the providers in the order of the code; the first that fails ends the start-up
  unfoldable pub bootstrap : Config → N → D → Result String (Wired K N Q D C × D)
  bootstrap cfg net d = identified cfg (build_identity sys jwt http db cfg.providers.identity net) d
