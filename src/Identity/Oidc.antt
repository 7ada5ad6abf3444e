-- ===== src/Identity/Oidc.antt =====
-- crates/identity/src/oidc.rs: tokens checked with the keys of an issuer, which are fetched and
-- cached. What the provider keeps behind its lock, the network and the clock are the state.
pub mod Validate
pub mod Accepted
pub mod Keys
use mcp_oxide.Prelude.{
  ℕ, ◌-◌, String, Bool, true, false, ◌&&◌, ◌||◌, not, Option, none, some, is_none, or_else, List,
  [], ◌∷◌, any, keep, ◌==◌, nat_eq, ltb, option_eq, if◌then◌else◌,
}
use Prim.Native.Char.{Char}
use mcp_oxide.Text.{format, is_empty, is_char, trim_end}
use mcp_oxide.Core.Error.{Error, unauthenticated, upstream_unavailable, internal, Result, ok, err}
use mcp_oxide.Core.Identity.{UserContext}
use mcp_oxide.Core.Providers.{IdProvider}
use mcp_oxide.Identity.Claims.{ClaimExtractor, default_extractor}
use mcp_oxide.Identity.Jwt.{
  Algorithm, es256, es384, rs256, rs384, rs512, ed_dsa, algorithm_eq, algorithm_text, Header,
  Validation, Jsonwebtoken, audience_of, user_of,
}

-- a `Duration` is a number of nanoseconds
pub record OidcConfig : Type 0 where
  pub issuer : String
  pub audiences : List String
  pub algorithms : List Algorithm
  pub jwks_cache_ttl : ℕ
  pub clock_skew_s : ℕ
  pub http_timeout : ℕ
  pub extractor : ClaimExtractor

abbrev pub default_config : OidcConfig
default_config = record {
  issuer = "";
  audiences = [];
  algorithms = rs256 ∷ es256 ∷ [];
  jwks_cache_ttl = 300000000000;
  clock_skew_s = 30;
  http_timeout = 5000000000;
  extractor = default_extractor;
}

pub record DiscoveryDoc : Type 0 where
  pub issuer : String
  pub jwks_uri : String

pub record Jwk : Type 0 where
  pub kid : Option String
  pub alg : Option String
  pub key_use : Option String
  pub kty : String
  pub n : Option String
  pub e : Option String
  pub crv : Option String
  pub x : Option String
  pub y : Option String
  pub x_okp : Option String

pub record CachedKey (K : Type 0) : Type 0 where
  pub kid : Option String
  pub algorithm : Algorithm
  pub decoding : K

-- `fetched_at` is the clock's reading
pub record Cached (K : Type 0) : Type 0 where
  pub keys : List (CachedKey K)
  pub fetched_at : ℕ

-- how a GET fails: in sending, by its status, or in the JSON of its body
pub data Fetch (A : Type 0) : Type 0 where
  fetched : A → Fetch A
  not_sent bad_status bad_json : String → Fetch A

-- The calls of `reqwest`, of the clock and of the formatting of a text. `N` is the state of the network and the clock, which a
-- request changes.
pub record Net (N : Type 0) : Type 0 where
  pub build_client : ℕ → Result String (Unit {0})
  pub get_discovery : String → N → Fetch DiscoveryDoc × N
  pub get_jwks : String → N → Fetch (List Jwk) × N
  pub now : N → ℕ
  -- `{:?}` of a text, which escapes it
  pub debug : String → String

-- what does not change once the provider is there
pub record OidcProvider : Type 0 where
  pub cfg : OidcConfig
  pub jwks_uri : String
  pub issuer : String

pub record OidcState (K N : Type 0) : Type 0 where
  pub cache : Option (Cached K)
  pub net : N

abbrev pub contains_algorithm : List Algorithm → Algorithm → Bool
contains_algorithm algorithms alg = any (λ a. algorithm_eq a alg) algorithms

abbrev algorithm_by_type : String → Option Algorithm
algorithm_by_type kty =
    if kty == "RSA"
    then some rs256
    else if kty == "EC"
    then some es256
    else if kty == "OKP"
    then some ed_dsa
    else none

unfoldable pub jwk_algorithm : Jwk → Option Algorithm
jwk_algorithm jwk = elim jwk.alg [
  | none ↦ algorithm_by_type jwk.kty
  | some name ↦
      if name == "RS256"
      then some rs256
      else if name == "RS384"
      then some rs384
      else if name == "RS512"
      then some rs512
      else if name == "ES256"
      then some es256
      else if name == "ES384"
      then some es384
      else if name == "EdDSA"
      then some ed_dsa
      else algorithm_by_type jwk.kty
]

-- `Result::ok`
abbrev made : {K : Type 0} → Result String K → Option K
made (ok key) = some key
made (err e) = none

abbrev from_two :
    {K : Type 0} → (String → String → Result String K) → Option String → Option String → Option K
from_two make (some a) (some b) = made (make a b)
from_two make _ _ = none

abbrev from_one : {K : Type 0} → (String → Result String K) → Option String → Option K
from_one make (some a) = made (make a)
from_one make none = none

abbrev with_algorithm :
    {K : Type 0} → Option String → Option Algorithm → Option K → Option (CachedKey K)
with_algorithm kid (some alg) (some key) =
    some (record { kid = kid; algorithm = alg; decoding = key })
with_algorithm kid _ _ = none

abbrev slash : Char → Bool
slash = is_char b'/'

unfoldable pub discovery_url : String → String
discovery_url issuer = format (trim_end slash issuer ∷ "/.well-known/openid-configuration" ∷ [])

unfoldable pub same_issuer : String → String → Bool
same_issuer a b = trim_end slash a == trim_end slash b

module _ {K : Type 0} (jwt : Jsonwebtoken K) where
  unfoldable pub jwk_key : Jwk → Option K
  jwk_key jwk =
      if jwk.kty == "RSA"
      then from_two jwt.from_rsa_components jwk.n jwk.e
      else if jwk.kty == "EC"
      then from_two jwt.from_ec_components jwk.x jwk.y
      else if jwk.kty == "OKP"
      then from_one jwt.from_ed_components (or_else jwk.x jwk.x_okp)
      else none

  unfoldable pub convert_jwk : Jwk → Option (CachedKey K)
  convert_jwk jwk = with_algorithm jwk.kid (jwk_algorithm jwk) (jwk_key jwk)

  -- a key whose use is given is for signatures
  abbrev pub for_signatures : Option String → Bool
  for_signatures none = true
  for_signatures (some use_) = use_ == "sig"

  abbrev push_allowed :
      List Algorithm → Option (CachedKey K) → List (CachedKey K) → List (CachedKey K)
  push_allowed algorithms none keys = keys
  push_allowed algorithms (some k) keys =
      if contains_algorithm algorithms k.algorithm then k ∷ keys else keys

  -- the loop over the fetched keys
  unfoldable pub usable_keys : List Algorithm → List Jwk → List (CachedKey K)
  usable_keys algorithms [] = []
  usable_keys algorithms (jwk ∷ jwks) =
      let rest = usable_keys algorithms jwks in
      let kept = push_allowed algorithms (convert_jwk jwk) rest in
      if for_signatures jwk.key_use then kept else rest

  module _ {N : Type 0} (http : Net N) where
    abbrev pub store_keys :
        List (CachedKey K) → OidcState K N → N → Result Error (Unit {0}) × OidcState K N
    store_keys [] st net =
        (err (internal "jwks: no compatible signing keys after filtering"), record st { net = net })
    store_keys (k ∷ ks) st net = (
      ok tt,
      record { cache = some (record { keys = k ∷ ks; fetched_at = http.now net }); net = net },
    )

    abbrev pub received :
        OidcProvider
        → OidcState K N
        → Fetch (List Jwk) × N
        → Result Error (Unit {0}) × OidcState K N
    received p st (fetched jwks, net) = store_keys (usable_keys p.cfg.algorithms jwks) st net
    received p st (not_sent e, net) =
        (err (upstream_unavailable (format ("jwks: " ∷ e ∷ []))), record st { net = net })
    received p st (bad_status e, net) =
        (err (upstream_unavailable (format ("jwks: " ∷ e ∷ []))), record st { net = net })
    received p st (bad_json e, net) =
        (err (internal (format ("jwks parse: " ∷ e ∷ []))), record st { net = net })

    unfoldable pub refresh_keys_inner :
        OidcProvider → OidcState K N → Result Error (Unit {0}) × OidcState K N
    refresh_keys_inner p st = received p st (http.get_jwks p.jwks_uri st.net)

    abbrev pub fits : Option String → Algorithm → CachedKey K → Bool
    fits none alg k = algorithm_eq k.algorithm alg
    fits (some id) alg k = algorithm_eq k.algorithm alg && option_eq ◌==◌ k.kid (some id)

    abbrev pub find_key : Option String → Algorithm → List (CachedKey K) → Option (CachedKey K)
    find_key kid alg [] = none
    find_key kid alg (k ∷ ks) = if fits kid alg k then some k else find_key kid alg ks

    abbrev pub find_cached : Option String → Algorithm → Option (Cached K) → Option (CachedKey K)
    find_cached kid alg none = none
    find_cached kid alg (some cached) = find_key kid alg cached.keys

    unfoldable pub lookup : OidcState K N → Option String → Algorithm → Option (CachedKey K)
    lookup st kid alg = find_cached kid alg st.cache

    abbrev is_older : ℕ → N → Option (Cached K) → Bool
    is_older ttl net none = true
    is_older ttl net (some cached) = ltb ttl (http.now net - cached.fetched_at)

    unfoldable pub cache_stale : OidcProvider → OidcState K N → Bool
    cache_stale p st = is_older p.cfg.jwks_cache_ttl st.net st.cache

    unfoldable pub make_validation : OidcProvider → Algorithm → Validation
    make_validation p alg = record {
      algorithm = alg;
      leeway = p.cfg.clock_skew_s;
      issuer = some (p.issuer ∷ []);
      audience = audience_of p.cfg.audiences;
    }
