-- ===== src/Identity/Jwt.antt =====
-- What the identity providers call of the `jsonwebtoken` crate: the reading of a token's header,
-- the decoding and checking of a token with a key of an unknown type `K`, and the making of keys.
use mcp_oxide.Prelude.{ℕ, String, Bool, true, false, Option, none, some, List, [], ◌∷◌}
use mcp_oxide.Text.{format}
use mcp_oxide.Core.Error.{Error, unauthenticated, Result, ok, err}
use mcp_oxide.Core.Json.{Json}
use mcp_oxide.Core.Identity.{UserContext}
use mcp_oxide.Identity.Claims.{ClaimExtractor, extract}

pub data Algorithm : Type 0 where
  hs256 hs384 hs512 es256 es384 rs256 rs384 rs512 ps256 ps384 ps512 ed_dsa : Algorithm

-- the derived `PartialEq`
unfoldable pub algorithm_eq : Algorithm → Algorithm → Bool
algorithm_eq hs256 hs256 = true
algorithm_eq hs384 hs384 = true
algorithm_eq hs512 hs512 = true
algorithm_eq es256 es256 = true
algorithm_eq es384 es384 = true
algorithm_eq rs256 rs256 = true
algorithm_eq rs384 rs384 = true
algorithm_eq rs512 rs512 = true
algorithm_eq ps256 ps256 = true
algorithm_eq ps384 ps384 = true
algorithm_eq ps512 ps512 = true
algorithm_eq ed_dsa ed_dsa = true
algorithm_eq _ _ = false

abbrev pub algorithm_text : Algorithm → String
algorithm_text hs256 = "HS256"
algorithm_text hs384 = "HS384"
algorithm_text hs512 = "HS512"
algorithm_text es256 = "ES256"
algorithm_text es384 = "ES384"
algorithm_text rs256 = "RS256"
algorithm_text rs384 = "RS384"
algorithm_text rs512 = "RS512"
algorithm_text ps256 = "PS256"
algorithm_text ps384 = "PS384"
algorithm_text ps512 = "PS512"
algorithm_text ed_dsa = "EdDSA"

pub record Header : Type 0 where
  pub alg : Algorithm
  pub kid : Option String

-- the fields of `Validation` that are set; no audience stands for `validate_aud = false`
pub record Validation : Type 0 where
  pub algorithm : Algorithm
  pub leeway : ℕ
  pub issuer : Option (List String)
  pub audience : Option (List String)

pub record Jsonwebtoken (K : Type 0) : Type 0 where
  pub decode_header : String → Result String Header
  pub decode : String → K → Validation → Result String Json
  pub from_rsa_components : (n e : String) → Result String K
  pub from_ec_components : (x y : String) → Result String K
  pub from_ed_components : String → Result String K
  pub from_rsa_pem : String → Result String K
  pub from_ec_pem : String → Result String K
  pub from_ed_pem : String → Result String K

-- `validate_aud` and `set_audience`
abbrev pub audience_of : List String → Option (List String)
audience_of [] = none
audience_of (a ∷ rest) = some (a ∷ rest)

-- the user of a token that was decoded
abbrev pub user_of : ClaimExtractor → Result String Json → Result Error UserContext
user_of extractor (ok claims) = ok (extract extractor claims)
user_of extractor (err e) = err (unauthenticated (format ("jwt: " ∷ e ∷ [])))
