-- ===== src/Gateway/Bootstrap/Defaults.antt =====
-- A gateway whose configuration names no provider of identity and no policy lets nobody in.
use mcp_oxide.Prelude.{false, ◌≡◌, inl, inr, refl, arith}
use mcp_oxide.Core.Error.{ok, err, Result-cases}
use mcp_oxide.Core.Policy.{PolicyInput, Decision, deny_decision}
use mcp_oxide.Core.Providers.{PolicyEngine}
use mcp_oxide.Authz.{deny_all_engine}
use mcp_oxide.Identity.{noop_id_provider}
use mcp_oxide.Identity.Jwt.{Jsonwebtoken}
use mcp_oxide.Identity.Oidc.{Net}
use mcp_oxide.Metadata.Sql.{Database}
use mcp_oxide.Gateway.Auth.{AuthRejection, rejection_response, from_request_parts}
use mcp_oxide.Gateway.Auth.Bearer.{from_request_parts_iff}
use mcp_oxide.Gateway.Config.{Config, noop, deny_all}
use mcp_oxide.Gateway.Handler.{Host, HeaderMap}
use mcp_oxide.Gateway.Bootstrap.Providers.{
  unconfigured, identity_provider, Wired, System, build_identity, build_authz, build_metadata,
  build_deployment,
}
use mcp_oxide.Gateway.Bootstrap.Wire.{bootstrap, client_spec}

noop_refuses :
    {V : Type 0} (host : Host V) (headers : HeaderMap V)
    → (r : AuthRejection) × (from_request_parts host noop_id_provider headers ≡ err r)
      × ((rejection_response r).0 ≡ 401)
noop_refuses host headers = elim (Result-cases (from_request_parts host noop_id_provider headers)) [
  | inl (r, x) ↦ (r, x, refl)
  | inr (user, x) ↦
      let (v, text, token, a) = (from_request_parts_iff host noop_id_provider headers user).0 x in
      absurd (cc a.valid)
]

deny_all_denies :
    (engine : PolicyEngine) (input : PolicyInput)
    → engine ≡ deny_all_engine
    → (decision : Decision) × (engine.decide input ≡ ok decision) × (decision.allow ≡ false)
deny_all_denies engine input e = (deny_decision "default-deny", rw e refl, refl)

module _ {K N Q D C J : Type 0} (sys : System K Q D C) (jwt : Jsonwebtoken K) (http : Net N)
    (db : Database J Q) where
  wired_providers :
      (cfg : Config) (net : N) (d d' : D) (w : Wired K N Q D C)
      → cfg.providers.identity ≡ noop
      → cfg.providers.authz ≡ deny_all
      → bootstrap sys jwt http db cfg net d ≡ ok (w, d')
      → (w.identity ≡ unconfigured) × (w.authz ≡ deny_all_engine)
  unfolding bootstrap build_identity build_authz
  wired_providers cfg net d d' w i a h =
      elim (Result-cases (build_metadata sys jwt http db cfg.providers.metadata_store)) [
        | inl (e, x) ↦ absurd (ground arith)
        | inr (store, x) ↦
            elim (Result-cases (build_deployment sys jwt http db cfg.providers.deployment d)) [
              | inl (e, y) ↦ absurd (ground arith)
              | inr (chosen, y) ↦ elim (Result-cases (sys.build_client (client_spec cfg))) [
                | inl (e, z) ↦ absurd (ground arith)
                | inr (client, z) ↦ ground arith
              ]
            ]
      ]

  -- In a gateway that starts from a configuration without a provider of identity and without a
  -- policy, every request that asks for a user through the `AuthUser` extractor is rejected with 401,
  -- and the
  -- policy engine denies every action. Routes that ask for no user, such as the health routes, are
  -- not concerned.
  pub bootstrap_refuses_all :
      {V : Type 0} (cfg : Config) (net : N) (d d' : D) (w : Wired K N Q D C) (host : Host V)
      (headers : HeaderMap V) (input : PolicyInput)
      → cfg.providers.identity ≡ noop
      → cfg.providers.authz ≡ deny_all
      → bootstrap sys jwt http db cfg net d ≡ ok (w, d')
      → ((r : AuthRejection) × (from_request_parts host
              (identity_provider jwt http w.identity)
              headers
            ≡ err r)
          × ((rejection_response r).0 ≡ 401))
        × ((decision : Decision) × (w.authz.decide input ≡ ok decision) × (decision.allow ≡ false))
  bootstrap_refuses_all cfg net d d' w host headers input i a h =
      let (no_id, denies) = wired_providers cfg net d d' w i a h in
      (rw no_id (noop_refuses host headers), deny_all_denies w.authz input denies)
