-- ===== src/Examples/Forward.antt =====
-- A request to a static adapter, whose upstream answers; and a gateway without configuration.
use mcp_oxide.Prelude.{ℕ, String, false, none, some, List, [], ◌∷◌, ◌≡◌, ◌↔◌, refl}
use mcp_oxide.Core.Error.{ok, err}
use mcp_oxide.Core.Policy.{PolicyInput, Decision, allow_decision}
use mcp_oxide.Core.Providers.{IdProvider}
use mcp_oxide.Authz.{deny_all_engine}
use mcp_oxide.Metadata.Memory.{InMemoryMetadataStore}
use mcp_oxide.Gateway.State.{AppState, World, ResolvedAdapter}
use mcp_oxide.Gateway.Handler.{HeaderMap}
use mcp_oxide.Gateway.Auth.{AuthRejection, rejection_response, from_request_parts}
use mcp_oxide.Gateway.Auth.Bearer.{Authenticates, from_request_parts_iff}
use mcp_oxide.Gateway.Config.{default_config}
use mcp_oxide.Gateway.Bootstrap.Providers.{
  unconfigured, external, in_memory_store, identity_provider, Wired, System, build_identity,
  build_authz, build_metadata, build_deployment, adapter_map,
}
use mcp_oxide.Gateway.Bootstrap.Wire.{bootstrap}
use mcp_oxide.Gateway.Bootstrap.Defaults.{bootstrap_refuses_all}
use mcp_oxide.Gateway.DataPlane.Proxy.{
  Wire, replied, ProxyOutcome, ProxyResponse, forwardable_headers,
}
use mcp_oxide.Gateway.DataPlane.Proxy.Headers.{Carries, Forwardable, forwardable_headers_iff}
use mcp_oxide.Gateway.DataPlane.Invoke.{forward_audit}
use mcp_oxide.Examples.{host, admin, no_headers, fresh_world, open_gateway}
use mcp_oxide.Gateway.ControlPlane.Helpers.{CpKind, create, policy_input}
use mcp_oxide.Examples.Stores.{Rows, rows_database}
use mcp_oxide.Examples.Tokens.{jwt, net}

abbrev sent : List (String × String)
sent = ("accept", "application/json") ∷ ("authorization", "Bearer t") ∷ ("te", "trailers") ∷ []

forwardable_headers_iff_example :
    Carries "accept" "application/json" (forwardable_headers sent)
    ↔ (Carries "accept" "application/json" sent × Forwardable "accept")
forwardable_headers_iff_example = forwardable_headers_iff "accept" "application/json" sent

abbrev adapter : ResolvedAdapter
adapter = record {
  name = "a";
  upstream = "http://a:8080/mcp";
  required_roles = "admin" ∷ [];
  tags = [];
}

abbrev gateway : AppState InMemoryMetadataStore Unit
gateway = record open_gateway { adapters = ("a", adapter) ∷ [] }

abbrev response : ProxyResponse String String
response = record { status = 200; headers = []; body = "{}" }

abbrev wire : Wire String String
wire = record {
  post = λ url headers body. (replied 200 [] "{}", 5);
  convert = λ entry. some entry;
  to_str = λ v. some v;
  from_static = λ s. s;
  sha256_hex = λ body. "00";
}

abbrev outcome : ProxyOutcome
outcome = record { status = 200; latency_ms = 5; content_type = none }

abbrev world_after : World InMemoryMetadataStore Unit
world_after = record fresh_world {
  audit =
      forward_audit host wire (λ body. none) gateway admin "trace" sent "{}" adapter allow_decision
        5 "ok" none
      ∷ [];
}

abbrev anyone : IdProvider
anyone = record { validate = λ token. ok admin }

abbrev with_bearer : HeaderMap String
with_bearer = record no_headers { authorization = some "Bearer t" }

from_request_parts_iff_example : (from_request_parts host anyone with_bearer ≡ ok admin) ↔ (
    (v : String) × (text : String) × (token : String) × Authenticates host anyone with_bearer admin
      v text token)
from_request_parts_iff_example = from_request_parts_iff host anyone with_bearer admin

abbrev system : System String Rows Unit Unit
system = record {
  algorithm_of = λ s. none;
  read = λ path. err "no file";
  from_yaml = λ text. err "no policy";
  from_secret = λ bytes. bytes;
  open_pool = λ n url. ok [];
  connector = record {
    with_socket_defaults = err "no daemon";
    with_socket = λ s t. err "no daemon";
  };
  build_client = λ spec. ok tt;
}

abbrev wired : Wired String ℕ Rows Unit Unit
wired = record {
  identity = unconfigured;
  authz = deny_all_engine;
  deployment = external;
  metadata = in_memory_store;
  http = tt;
  adapters = [];
}

bootstrap_run : bootstrap system jwt net rows_database default_config 0 tt ≡ ok (wired, tt)
unfolding bootstrap build_identity build_authz build_metadata build_deployment adapter_map
bootstrap_run = refl

abbrev request : PolicyInput
request = policy_input admin CpKind.adapter create "a" []

bootstrap_refuses_all_example :
    ((r : AuthRejection) × (from_request_parts host
          (identity_provider jwt net wired.identity)
          with_bearer
        ≡ err r)
      × ((rejection_response r).0 ≡ 401))
    × ((decision : Decision) × (wired.authz.decide request ≡ ok decision)
        × (decision.allow ≡ false))
bootstrap_refuses_all_example =
    bootstrap_refuses_all system jwt net rows_database default_config 0 tt tt wired host with_bearer
      request refl refl bootstrap_run
