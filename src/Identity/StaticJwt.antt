-- ===== src/Identity/StaticJwt.antt =====
-- crates/identity/src/static_jwt.rs: tokens checked with one key that is configured.
use mcp_oxide.Prelude.{ℕ, String, Option, none, some, List, [], ◌∷◌}
use mcp_oxide.Text.{format}
use mcp_oxide.Core.Error.{Error, internal, Result, ok, err}
use mcp_oxide.Core.Identity.{UserContext}
use mcp_oxide.Core.Providers.{IdProvider}
use mcp_oxide.Identity.Claims.{ClaimExtractor, default_extractor}
use mcp_oxide.Identity.Jwt.{
  Algorithm, es256, es384, rs256, rs384, rs512, ed_dsa, algorithm_text, Validation, Jsonwebtoken,
  audience_of, user_of,
}

pub record StaticJwtConfig (K : Type 0) : Type 0 where
  pub algorithm : Algorithm
  pub key : K
  pub issuer : Option String
  pub audiences : List String
  pub clock_skew_s : ℕ
  pub extractor : ClaimExtractor

pub record StaticJwtProvider (K : Type 0) : Type 0 where
  pub algorithm : Algorithm
  pub key : K
  pub validation : Validation
  pub extractor : ClaimExtractor

abbrev issuer_of : Option String → Option (List String)
issuer_of none = none
issuer_of (some iss) = some (iss ∷ [])

unfoldable pub «new» : {K : Type 0} → StaticJwtConfig K → StaticJwtProvider K
«new» cfg = record {
  algorithm = cfg.algorithm;
  key = cfg.key;
  validation = record {
    algorithm = cfg.algorithm;
    leeway = cfg.clock_skew_s;
    issuer = issuer_of cfg.issuer;
    audience = audience_of cfg.audiences;
  };
  extractor = cfg.extractor;
}

module _ {K : Type 0} (jwt : Jsonwebtoken K) where
  -- the key of a PEM text; the error keeps the crate's own words
  abbrev key_of : Result String K → Result Error K
  key_of (ok key) = ok key
  key_of (err e) = err (internal (format ("jwt key: " ∷ e ∷ [])))

  unfoldable pub pem_key : String → Algorithm → Result Error K
  pem_key pem rs256 = key_of (jwt.from_rsa_pem pem)
  pem_key pem rs384 = key_of (jwt.from_rsa_pem pem)
  pem_key pem rs512 = key_of (jwt.from_rsa_pem pem)
  pem_key pem es256 = key_of (jwt.from_ec_pem pem)
  pem_key pem es384 = key_of (jwt.from_ec_pem pem)
  pem_key pem ed_dsa = key_of (jwt.from_ed_pem pem)
  pem_key pem other =
      err (internal (format ("unsupported alg for PEM: " ∷ algorithm_text other ∷ [])))

  abbrev with_key :
      Algorithm → Option String → List String → Result Error K → Result Error (StaticJwtProvider K)
  with_key algorithm issuer audiences (err e) = err e
  with_key algorithm issuer audiences (ok key) = ok (
      «new» (record {
        algorithm = algorithm;
        key = key;
        issuer = issuer;
        audiences = audiences;
        clock_skew_s = 30;
        extractor = default_extractor;
      }))

  unfoldable pub from_pem :
      String → Algorithm → Option String → List String → Result Error (StaticJwtProvider K)
  from_pem pem algorithm issuer audiences =
      with_key algorithm issuer audiences (pem_key pem algorithm)

  unfoldable pub validate : StaticJwtProvider K → String → Result Error UserContext
  validate p token = user_of p.extractor (jwt.decode token p.key p.validation)

  abbrev pub static_jwt_provider : StaticJwtProvider K → IdProvider
  static_jwt_provider p = record { validate = validate p }
