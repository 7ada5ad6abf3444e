-- ===== src/Identity/Oidc/Validate.antt =====
-- crates/identity/src/oidc.rs: `OidcProvider::validate` and `OidcProvider::connect`.
use mcp_oxide.Prelude.{String, ◌||◌, Option, none, some, is_none, [], ◌∷◌, if◌then◌else◌}
use mcp_oxide.Text.{format, is_empty}
use mcp_oxide.Core.Error.{Error, unauthenticated, upstream_unavailable, internal, Result, ok, err}
use mcp_oxide.Core.Identity.{UserContext}
use mcp_oxide.Core.Providers.{IdProvider}
use mcp_oxide.Identity.Jwt.{algorithm_text, Header, Jsonwebtoken, user_of}
use mcp_oxide.Identity.Oidc.{
  OidcConfig, DiscoveryDoc, CachedKey, Fetch, fetched, not_sent, bad_status, bad_json, Net,
  OidcProvider, OidcState, contains_algorithm, discovery_url, same_issuer, refresh_keys_inner,
  lookup, cache_stale, make_validation,
}

module _ {K N : Type 0} (jwt : Jsonwebtoken K) (http : Net N) where
  -- the cache as it is, or refreshed once where the key is missing or the cache is stale; the
  -- result of the refresh is dropped
  unfoldable pub maybe_refreshed : OidcProvider → Header → OidcState K N → OidcState K N
  maybe_refreshed p header st =
      if is_none (lookup jwt http st header.kid header.alg) || cache_stale jwt http p st
      then (refresh_keys_inner jwt http p st).1
      else st

  abbrev kid_text : Option String → String
  kid_text none = "None"
  kid_text (some id) = format ("Some(" ∷ http.debug id ∷ ")" ∷ [])

  abbrev checked : OidcProvider → String → Header → Option (CachedKey K) → Result Error UserContext
  checked p token header none =
      err (
        unauthenticated
          (format ("jwt: unknown signing key (kid=" ∷ kid_text header.kid ∷ ")" ∷ [])))
  checked p token header (some key) =
      user_of p.cfg.extractor
        (jwt.decode token key.decoding (make_validation jwt http p header.alg))

  abbrev validated :
      OidcProvider
      → String
      → Result String Header
      → OidcState K N
      → Result Error UserContext × OidcState K N
  validated p token (err e) st = (err (unauthenticated (format ("jwt header: " ∷ e ∷ []))), st)
  validated p token (ok header) st =
      let st' = maybe_refreshed p header st in
      let answer = checked p token header (lookup jwt http st' header.kid header.alg) in
      if contains_algorithm p.cfg.algorithms header.alg then (answer, st') else (
        err (
            unauthenticated
              (format ("jwt: algorithm " ∷ algorithm_text header.alg ∷ " not allowed" ∷ []))),
        st,
      )

  unfoldable pub validate :
      OidcProvider → String → OidcState K N → Result Error UserContext × OidcState K N
  validate p token st = validated p token (jwt.decode_header token) st

  abbrev with_keys :
      OidcProvider
      → Result Error (Unit {0}) × OidcState K N
      → Result Error OidcProvider × OidcState K N
  with_keys p (ok done, st) = (ok p, st)
  with_keys p (err e, st) = (err e, st)

  abbrev pub discovered :
      OidcConfig → Fetch DiscoveryDoc × N → Result Error OidcProvider × OidcState K N
  discovered cfg (fetched disc, net) =
      let p : OidcProvider = record { cfg = cfg; jwks_uri = disc.jwks_uri; issuer = disc.issuer } in
      let filled =
        with_keys p (refresh_keys_inner jwt http p (record { cache = none; net = net })) in
      if same_issuer disc.issuer cfg.issuer then filled else (
        err (
            internal (
              format (
                "oidc issuer mismatch: configured=" ∷ cfg.issuer ∷ " discovered=" ∷ disc.issuer
                ∷ []))),
        record { cache = none; net = net },
      )
  discovered cfg (not_sent e, net) = (
    err (upstream_unavailable (format ("oidc discovery: " ∷ e ∷ []))),
    record { cache = none; net = net },
  )
  discovered cfg (bad_status e, net) = (
    err (upstream_unavailable (format ("oidc discovery: " ∷ e ∷ []))),
    record { cache = none; net = net },
  )
  discovered cfg (bad_json e, net) = (
    err (internal (format ("oidc discovery parse: " ∷ e ∷ []))),
    record { cache = none; net = net },
  )

  abbrev pub client_built :
      OidcConfig → Result String (Unit {0}) → N → Result Error OidcProvider × OidcState K N
  client_built cfg (err e) net =
      (err (internal (format ("oidc http client: " ∷ e ∷ []))), record { cache = none; net = net })
  client_built cfg (ok done) net =
      discovered cfg (http.get_discovery (discovery_url cfg.issuer) net)

  unfoldable pub connect : OidcConfig → N → Result Error OidcProvider × OidcState K N
  connect cfg net =
      let built = client_built cfg (http.build_client cfg.http_timeout) net in
      if is_empty cfg.issuer
      then (err (internal "oidc: empty issuer"), record { cache = none; net = net })
      else built

  -- the provider as it answers in a state
  abbrev pub oidc_provider : OidcProvider → OidcState K N → IdProvider
  oidc_provider p st = record { validate = λ token. (validate p token st).0 }
