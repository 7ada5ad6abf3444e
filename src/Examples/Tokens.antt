-- ===== src/Examples/Tokens.antt =====
-- An OIDC provider with one key, which takes every token whose signature is the token itself.
use mcp_oxide.Prelude.{ℕ, String, none, some, [], ◌∷◌, ◌≡◌, refl}
use mcp_oxide.Text.{trim_end, split}
use mcp_oxide.Core.Error.{ok}
use mcp_oxide.Core.Identity.{UserContext}
use mcp_oxide.Core.Json
use mcp_oxide.Core.Json.{Json}
use mcp_oxide.Identity.Claims.{
  extract, get_string, get_path, follow, gathered, collect, dedup, sort, get_string_vec,
}
use mcp_oxide.Identity.Jwt.{rs256, algorithm_eq, Header, Jsonwebtoken}
use mcp_oxide.Identity.Oidc.{
  OidcConfig, default_config, Jwk, fetched, Net, OidcProvider, OidcState, discovery_url,
  same_issuer, jwk_algorithm, jwk_key, convert_jwk, usable_keys, refresh_keys_inner, lookup,
  cache_stale,
}
use mcp_oxide.Identity.Oidc.Validate.{maybe_refreshed, validate, connect}
use mcp_oxide.Identity.Oidc.Accepted.{Accepted, validate-Accepted}
use mcp_oxide.Identity.Oidc.Keys.{HasKeys, connected, validated, reached-HasKeys}

abbrev header : Header
header = record { alg = rs256; kid = some "k1" }

abbrev claims : Json
claims = Json.object (Json.field "sub" (Json.string "alice") Json.end)

abbrev pub jwt : Jsonwebtoken String
jwt = record {
  decode_header = λ token. ok header;
  decode = λ token key validation. ok claims;
  from_rsa_components = λ n e. ok n;
  from_ec_components = λ x y. ok x;
  from_ed_components = λ x. ok x;
  from_rsa_pem = λ pem. ok pem;
  from_ec_pem = λ pem. ok pem;
  from_ed_pem = λ pem. ok pem;
}

abbrev jwk : Jwk
jwk = record {
  kid = some "k1";
  alg = none;
  key_use = some "sig";
  kty = "RSA";
  n = some "n";
  e = some "AQAB";
  crv = none;
  x = none;
  y = none;
  x_okp = none;
}

-- the state of the network is the time
abbrev pub net : Net ℕ
net = record {
  build_client = λ timeout. ok tt;
  get_discovery = λ url t. (
    fetched
        (record { issuer = "https://id.example.com/"; jwks_uri = "https://id.example.com/jwks" }),
    t,
  );
  get_jwks = λ url t. (fetched (jwk ∷ []), t);
  now = λ t. t;
  debug = λ s. s;
}

abbrev config : OidcConfig
config = record default_config { issuer = "https://id.example.com" }

abbrev oidc : OidcProvider
oidc = record {
  cfg = config;
  jwks_uri = "https://id.example.com/jwks";
  issuer = "https://id.example.com/";
}

abbrev state : OidcState String ℕ
state = record {
  cache = some (record {
    keys = record { kid = some "k1"; algorithm = rs256; decoding = "n" } ∷ [];
    fetched_at = 7;
  });
  net = 7;
}

connect_run : connect jwt net config 7 ≡ (ok oidc, state)
unfolding connect discovery_url same_issuer trim_end refresh_keys_inner usable_keys convert_jwk
    jwk_algorithm jwk_key algorithm_eq
connect_run = refl

abbrev user : UserContext
user = record {
  sub = "alice";
  tenant = none;
  roles = [];
  groups = [];
  scopes = [];
  claims = claims;
}

validate_run : validate jwt net oidc "token" state ≡ (ok user, state)
unfolding validate maybe_refreshed lookup cache_stale algorithm_eq extract get_string get_path
    follow gathered collect dedup sort get_string_vec split Json.get Json.find_field Json.as_str
validate_run = refl

validate-Accepted_example : Accepted jwt net oidc "token" user state
validate-Accepted_example = validate-Accepted jwt net oidc "token" user state state validate_run

reached-HasKeys_example : HasKeys jwt net oidc (validate jwt net oidc "token" state).1
reached-HasKeys_example =
    reached-HasKeys jwt net oidc (validate jwt net oidc "token" state).1
      (validated "token" state (connected config 7 state connect_run))
