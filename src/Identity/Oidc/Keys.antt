-- ===== src/Identity/Oidc/Keys.antt =====
-- Which keys the cache of crates/identity/src/oidc.rs holds, over every sequence of calls.
use mcp_oxide.Prelude.{
  ℕ, String, Bool, true, false, none, some, List, [], ◌∷◌, ◌≡◌, ◌≢◌, ◌⊎◌, inl, inr, refl, ◌∙◌,
  subst, ◌||◌, is_none, arith, All, Option-cases, Bool-cases, if◌then◌else◌,
}
use mcp_oxide.Text.{is_empty}
use mcp_oxide.Core.Error.{Error, Result, ok, err, Result-cases}
use mcp_oxide.Identity.Jwt.{
  Algorithm, Header, Jsonwebtoken, algorithm_eq, hs256, hs384, hs512, es256, es384, rs256, rs384,
  rs512, ps256, ps384, ps512, ed_dsa,
}
use mcp_oxide.Identity.Oidc.{
  OidcConfig, DiscoveryDoc, Jwk, CachedKey, Fetch, fetched, not_sent, bad_status, bad_json, Net,
  OidcProvider, OidcState, contains_algorithm, for_signatures, convert_jwk, usable_keys, store_keys,
  received, refresh_keys_inner, same_issuer, lookup, cache_stale, discovery_url,
}
use mcp_oxide.Identity.Oidc.Validate.{maybe_refreshed, validate, discovered, connect}

abbrev pub Among : Algorithm → List Algorithm → Type 0
Among alg [] = ⊥
Among alg (a ∷ rest) = (a ≡ alg) ⊎ Among alg rest

pub algorithm_eq_sound : (a b : Algorithm) → algorithm_eq a b ≡ true → a ≡ b
unfolding algorithm_eq
algorithm_eq_sound hs256 hs256 h = refl
algorithm_eq_sound hs384 hs384 h = refl
algorithm_eq_sound hs512 hs512 h = refl
algorithm_eq_sound es256 es256 h = refl
algorithm_eq_sound es384 es384 h = refl
algorithm_eq_sound rs256 rs256 h = refl
algorithm_eq_sound rs384 rs384 h = refl
algorithm_eq_sound rs512 rs512 h = refl
algorithm_eq_sound ps256 ps256 h = refl
algorithm_eq_sound ps384 ps384 h = refl
algorithm_eq_sound ps512 ps512 h = refl
algorithm_eq_sound ed_dsa ed_dsa h = refl
algorithm_eq_sound _ _ h = cc

pub contains_algorithm-Among :
    (algorithms : List Algorithm) (alg : Algorithm)
    → contains_algorithm algorithms alg ≡ true
    → Among alg algorithms
contains_algorithm-Among [] alg h = cc
contains_algorithm-Among (a ∷ rest) alg h =
    ground (arith, algorithm_eq_sound a alg, contains_algorithm-Among rest alg)

module _ {K N : Type 0} (jwt : Jsonwebtoken K) (http : Net N) (p : OidcProvider) where
  abbrev pub IsAllowed : CachedKey K → Type 0
  IsAllowed k = Among k.algorithm p.cfg.algorithms

  -- the provider has keys, and all are of algorithms that it allows
  pub record HasKeys (st : OidcState K N) : Type 0 where
    pub keys : List (CachedKey K)
    pub time : ℕ
    pub cached : st.cache ≡ some (record { keys = keys; fetched_at = time })
    pub some_key : keys ≢ []
    pub allowed : All IsAllowed keys

  usable_keys-IsAllowed : (jwks : List Jwk) → All IsAllowed (usable_keys jwt p.cfg.algorithms jwks)
  unfolding usable_keys
  usable_keys-IsAllowed [] = tt
  usable_keys-IsAllowed (jwk ∷ jwks) =
      let ih = usable_keys-IsAllowed jwks in
      elim (Bool-cases (for_signatures jwt jwk.key_use)) [
        | inr e ↦ rw e ih
        | inl e ↦ elim (Option-cases (convert_jwk jwt jwk)) [
          | inl c ↦ rw (e, c) ih
          | inr (k, c) ↦ elim (Bool-cases (contains_algorithm p.cfg.algorithms k.algorithm)) [
            | inl a ↦ rw (e, c, a) (contains_algorithm-Among p.cfg.algorithms k.algorithm a, ih)
            | inr a ↦ rw (e, c, a) ih
          ]
        ]
      ]

  -- a refresh that succeeds fills the cache, and one that fails leaves it
  abbrev Refreshed : OidcState K N → Result Error (Unit {0}) × OidcState K N → Type 0
  Refreshed st result =
      ((result.0 ≡ ok tt) × HasKeys result.1)
      ⊎ ((e : Error) × (result.0 ≡ err e) × (result.1.cache ≡ st.cache))

  store_keys-Refreshed :
      (keys : List (CachedKey K)) (st : OidcState K N) (net : N)
      → All IsAllowed keys
      → Refreshed st (store_keys jwt http keys st net)
  store_keys-Refreshed [] st net h = inr (_, refl, refl)
  store_keys-Refreshed (k ∷ ks) st net h = inl (
    refl,
    record { keys = k ∷ ks; time = http.now net; cached = refl; some_key = λ x. cc; allowed = h },
  )

  received-Refreshed :
      (st : OidcState K N) (answer : Fetch (List Jwk) × N)
      → Refreshed st (received jwt http p st answer)
  received-Refreshed st (fetched jwks, net) =
      store_keys-Refreshed (usable_keys jwt p.cfg.algorithms jwks) st net
        (usable_keys-IsAllowed jwks)
  received-Refreshed st (not_sent e, net) = inr (_, refl, refl)
  received-Refreshed st (bad_status e, net) = inr (_, refl, refl)
  received-Refreshed st (bad_json e, net) = inr (_, refl, refl)

  refresh_keys_inner-Refreshed :
      (st : OidcState K N) → Refreshed st (refresh_keys_inner jwt http p st)
  unfolding refresh_keys_inner
  refresh_keys_inner-Refreshed st = received-Refreshed st (http.get_jwks p.jwks_uri st.net)

  if_HasKeys :
      (test : Bool) (a b : OidcState K N) → HasKeys a → HasKeys b → HasKeys (if test then a else b)
  if_HasKeys true a b h k = h
  if_HasKeys false a b h k = k

  -- nothing but the cache counts
  HasKeys-cache : (st st' : OidcState K N) → st'.cache ≡ st.cache → HasKeys st → HasKeys st'
  HasKeys-cache st st' e h = record {
    keys = h.keys;
    time = h.time;
    cached = e ∙ h.cached;
    some_key = h.some_key;
    allowed = h.allowed;
  }

  refresh_keys_inner-HasKeys :
      (st : OidcState K N) → HasKeys st → HasKeys (refresh_keys_inner jwt http p st).1
  refresh_keys_inner-HasKeys st h = elim (refresh_keys_inner-Refreshed st) [
    | inl (e, k) ↦ k
    | inr (x, e, same) ↦ HasKeys-cache st (refresh_keys_inner jwt http p st).1 same h
  ]

  maybe_refreshed-HasKeys :
      (header : Header) (st : OidcState K N)
      → HasKeys st
      → HasKeys (maybe_refreshed jwt http p header st)
  unfolding maybe_refreshed
  maybe_refreshed-HasKeys header st h =
      if_HasKeys (is_none (lookup jwt http st header.kid header.alg) || cache_stale jwt http p st)
        (refresh_keys_inner jwt http p st).1 st (refresh_keys_inner-HasKeys st h) h

  validate-HasKeys :
      (token : String) (st : OidcState K N) → HasKeys st → HasKeys (validate jwt http p token st).1
  unfolding validate
  validate-HasKeys token st h = elim (Result-cases (jwt.decode_header token)) [
    | inl (e, x) ↦ rw x h
    | inr (header, x) ↦ elim (Bool-cases (contains_algorithm p.cfg.algorithms header.alg)) [
      | inl a ↦ rw (x, a) (maybe_refreshed-HasKeys header st h)
      | inr a ↦ rw (x, a) h
    ]
  ]

  -- the states of a provider that `connect` returned: between two calls the network and the clock
  -- may have changed at will
  pub data Reached : OidcState K N → Type 0 where
    connected :
        (cfg : OidcConfig) (net : N) (st : OidcState K N)
        → connect jwt http cfg net ≡ (ok p, st)
        → Reached st
    validated :
        (token : String) (st : OidcState K N)
        → Reached st
        → Reached (validate jwt http p token st).1
    refreshed : (st : OidcState K N) → Reached st → Reached (refresh_keys_inner jwt http p st).1
    waited : (net : N) (st : OidcState K N) → Reached st → Reached (record st { net = net })

  discovered-HasKeys :
      (cfg : OidcConfig) (answer : Fetch DiscoveryDoc × N) (st : OidcState K N)
      → discovered jwt http cfg answer ≡ (ok p, st)
      → HasKeys st
  discovered-HasKeys cfg (not_sent e, net) st h = absurd (ground arith)
  discovered-HasKeys cfg (bad_status e, net) st h = absurd (ground arith)
  discovered-HasKeys cfg (bad_json e, net) st h = absurd (ground arith)
  discovered-HasKeys cfg (fetched disc, net) st h =
      let q : OidcProvider = record { cfg = cfg; jwks_uri = disc.jwks_uri; issuer = disc.issuer } in
      let first : OidcState K N = record { cache = none; net = net } in
      elim (Bool-cases (same_issuer disc.issuer cfg.issuer)) [
        | inr other ↦ absurd (ground arith)
        | inl same ↦ elim (Result-cases (refresh_keys_inner jwt http q first).0) [
          | inl (e, x) ↦ absurd (ground arith)
          | inr (done, x) ↦
              let is_p : q ≡ p = ground arith in
              let is_st : (refresh_keys_inner jwt http q first).1 ≡ st = ground arith in
              let x' : (refresh_keys_inner jwt http p first).0 ≡ ok done = rw is_p at x in
              let is_st' : (refresh_keys_inner jwt http p first).1 ≡ st = rw is_p at is_st in
              elim (refresh_keys_inner-Refreshed first) [
                | inl (e, k) ↦ subst HasKeys is_st' k
                | inr (y, e, k) ↦ absurd (ground arith)
              ]
        ]
      ]

  connect-HasKeys :
      (cfg : OidcConfig) (net : N) (st : OidcState K N)
      → connect jwt http cfg net ≡ (ok p, st)
      → HasKeys st
  unfolding connect
  connect-HasKeys cfg net st h = elim (Bool-cases (is_empty cfg.issuer)) [
    | inl e ↦ absurd (ground arith)
    | inr e ↦ elim (Result-cases (http.build_client cfg.http_timeout)) [
      | inl (x, b) ↦ absurd (ground arith)
      | inr (done, b) ↦
          discovered-HasKeys cfg (http.get_discovery (discovery_url cfg.issuer) net) st
            (ground arith)
    ]
  ]

  -- In every state of a provider that `connect` returned, whatever was validated or refreshed
  -- since, the cache holds keys, and all of them are of algorithms that the configuration allows.
  pub reached-HasKeys : (st : OidcState K N) → Reached st → HasKeys st
  reached-HasKeys _ (connected cfg net st h) = connect-HasKeys cfg net st h
  reached-HasKeys _ (validated token st r) = validate-HasKeys token st (reached-HasKeys st r)
  reached-HasKeys _ (refreshed st r) = refresh_keys_inner-HasKeys st (reached-HasKeys st r)
  reached-HasKeys _ (waited net st r) =
      HasKeys-cache st (record st { net = net }) refl (reached-HasKeys st r)
