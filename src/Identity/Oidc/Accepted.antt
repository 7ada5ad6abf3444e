-- ===== src/Identity/Oidc/Accepted.antt =====
-- What stands behind a token that crates/identity/src/oidc.rs accepts, and what every validation
-- does to the state.
use mcp_oxide.Prelude.{
  String, true, eq_iff, Option, none, some, List, [], ◌∷◌, ◌≡◌, ◌≢◌, ◌⊎◌, inl, inr, refl, arith,
  Option-cases, Bool-cases,
}
use mcp_oxide.Core.Error.{ok, Result-cases}
use mcp_oxide.Core.Json.{Json}
use mcp_oxide.Core.Identity.{UserContext}
use mcp_oxide.Identity.Claims.{extract}
use mcp_oxide.Identity.Jwt.{Algorithm, Header, Validation, Jsonwebtoken, audience_of}
use mcp_oxide.Identity.Oidc.{
  CachedKey, Cached, Net, OidcProvider, OidcState, contains_algorithm, fits, find_key, lookup,
  make_validation,
}
use mcp_oxide.Identity.Oidc.Validate.{maybe_refreshed, validate}
use mcp_oxide.Identity.Oidc.Keys.{Among, algorithm_eq_sound, contains_algorithm-Among}

module _ {K N : Type 0} (jwt : Jsonwebtoken K) (http : Net N) where
  abbrev pub Holds : CachedKey K → List (CachedKey K) → Type 0
  Holds k [] = ⊥
  Holds k (l ∷ ls) = (l ≡ k) ⊎ Holds k ls

  -- the key is for the algorithm, and for the key id where the token names one
  abbrev pub IsFor : Header → CachedKey K → Type 0
  IsFor header k = (k.algorithm ≡ header.alg) × ((header.kid ≡ none) ⊎ (k.kid ≡ header.kid))

  fits-IsFor :
      (kid : Option String) (alg : Algorithm) (k : CachedKey K)
      → fits jwt http kid alg k ≡ true
      → IsFor (record { alg = alg; kid = kid }) k
  fits-IsFor none alg k h = (algorithm_eq_sound k.algorithm alg h, inl refl)
  fits-IsFor (some id) alg k h = elim (Option-cases k.kid) [
    | inl e ↦ absurd (ground arith)
    | inr (own, e) ↦
        let same : own ≡ id = ground (arith, eq_iff own id) in
        (algorithm_eq_sound k.algorithm alg (ground arith), inr (rw (e, same) refl))
  ]

  find_key-Holds :
      (kid : Option String) (alg : Algorithm) (keys : List (CachedKey K)) (k : CachedKey K)
      → find_key jwt http kid alg keys ≡ some k
      → Holds k keys × IsFor (record { alg = alg; kid = kid }) k
  find_key-Holds kid alg [] k h = cc
  find_key-Holds kid alg (l ∷ ls) k h = elim (Bool-cases (fits jwt http kid alg l)) [
    | inl here ↦
        let same : l ≡ k = ground arith in (inl same, rw (← same) (fits-IsFor kid alg l here))
    | inr other ↦ let (held, for) = find_key-Holds kid alg ls k (ground arith) in (inr held, for)
  ]

  module _ (p : OidcProvider) where
    -- the checks that the provider is configured for: its issuer, and its audiences if it has any
    pub record AsConfigured (alg : Algorithm) (checks : Validation) : Type 0 where
      pub algorithm : checks.algorithm ≡ alg
      pub leeway : checks.leeway ≡ p.cfg.clock_skew_s
      pub issuer : checks.issuer ≡ some (p.issuer ∷ [])
      pub audience :
          ((p.cfg.audiences ≡ []) × (checks.audience ≡ none))
          ⊎ ((p.cfg.audiences ≢ []) × (checks.audience ≡ some p.cfg.audiences))

    audience_cases :
        (audiences : List String)
        → ((audiences ≡ []) × (audience_of audiences ≡ none))
          ⊎ ((audiences ≢ []) × (audience_of audiences ≡ some audiences))
    audience_cases [] = inl (refl, refl)
    audience_cases (a ∷ rest) = inr (λ e. cc, refl)

    make_validation-AsConfigured :
        (alg : Algorithm) → AsConfigured alg (make_validation jwt http p alg)
    unfolding make_validation
    make_validation-AsConfigured alg = record {
      algorithm = refl;
      leeway = refl;
      issuer = refl;
      audience = audience_cases p.cfg.audiences;
    }

    -- what an accepted token has passed: its algorithm is allowed, the cache of the state
    -- afterwards holds a key for it, and with that key it decodes, with the checks configured
    pub record Accepted (token : String) (u : UserContext) (st' : OidcState K N) : Type 0 where
      pub header : Header
      pub read : jwt.decode_header token ≡ ok header
      pub allowed : Among header.alg p.cfg.algorithms
      pub cached : Cached K
      pub in_cache : st'.cache ≡ some cached
      pub key : CachedKey K
      pub held : Holds key cached.keys
      pub is_for : IsFor header key
      pub claims : Json
      pub checks : Validation
      pub configured : AsConfigured header.alg checks
      pub decoded : jwt.decode token key.decoding checks ≡ ok claims
      pub user : u ≡ extract p.cfg.extractor claims

    -- A token that `validate` accepts has an allowed algorithm and decodes with a key of the cache
    -- that is for this algorithm, and for the token's key id if it names one; the decoding checks
    -- the algorithm, the provider's issuer with its clock skew as leeway, and its audiences if it is
    -- configured with any. The user is extracted from the claims.
    pub validate-Accepted :
        (token : String) (u : UserContext) (st st' : OidcState K N)
        → validate jwt http p token st ≡ (ok u, st')
        → Accepted token u st'
    unfolding validate lookup
    validate-Accepted token u st st' h = elim (Result-cases (jwt.decode_header token)) [
      | inl (e, x) ↦ absurd (ground arith)
      | inr (header, x) ↦ elim (Bool-cases (contains_algorithm p.cfg.algorithms header.alg)) [
        | inr a ↦ absurd (ground arith)
        | inl a ↦
            let s = maybe_refreshed jwt http p header st in
            let is_s : s ≡ st' = ground arith in
            elim (Option-cases s.cache) [
              | inl c ↦ absurd (ground arith)
              | inr (cached, c) ↦
                  elim (Option-cases (find_key jwt http header.kid header.alg cached.keys)) [
                    | inl f ↦ absurd (ground arith)
                    | inr (k, f) ↦
                        elim (Result-cases
                          (jwt.decode token k.decoding (make_validation jwt http p header.alg))) [
                            | inl (e, d) ↦ absurd (ground arith)
                            | inr (claims, d) ↦
                                let (held, for) =
                                  find_key-Holds header.kid header.alg cached.keys k f in
                                record {
                                  header = header;
                                  read = x;
                                  allowed = contains_algorithm-Among p.cfg.algorithms header.alg a;
                                  cached = cached;
                                  in_cache = rw (← is_s) c;
                                  key = k;
                                  held = held;
                                  is_for = for;
                                  claims = claims;
                                  checks = make_validation jwt http p header.alg;
                                  configured = make_validation-AsConfigured header.alg;
                                  decoded = d;
                                  user = ground arith;
                                }
                          ]
                  ]
            ]
      ]
    ]
