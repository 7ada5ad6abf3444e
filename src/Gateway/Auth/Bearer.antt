-- ===== src/Gateway/Auth/Bearer.antt =====
-- Which requests are authenticated, and as whom.
use Prim.Native.String.{◌++◌}
use text.Mathlib.TextLemmas.{cons-append}
use mcp_oxide.Prelude.{String, none, some, ◌≡◌, ◌↔◌, ◌⊎◌, inl, inr, refl, arith, Option-cases}
use mcp_oxide.Text.{strip_prefix}
use mcp_oxide.Text.Prefix.{strip_prefix_iff, strip_prefix-append}
use mcp_oxide.Core.Error.{ok, Result-cases}
use mcp_oxide.Core.Identity.{UserContext}
use mcp_oxide.Core.Providers.{IdProvider}
use mcp_oxide.Gateway.Handler.{Host, HeaderMap}
use mcp_oxide.Gateway.Auth.{bearer_token, from_request_parts}

-- the scheme is written in one of two ways
abbrev pub Bears : String → String → Type 0
Bears text token = (text ≡ "Bearer " ++ token) ⊎ (text ≡ "bearer " ++ token)

not_capital : (token : String) → strip_prefix "Bearer " ("bearer " ++ token) ≡ none
unfolding strip_prefix
not_capital token = rw (cons-append) refl

bearer_token_iff : (text token : String) → (bearer_token text ≡ some token) ↔ Bears text token
unfolding bearer_token
bearer_token_iff text token = (
  λ h. elim (Option-cases (strip_prefix "Bearer " text)) [
    | inr (t, e) ↦ inl ((strip_prefix_iff "Bearer " text token).0 (ground arith))
    | inl other ↦ inr ((strip_prefix_iff "bearer " text token).0 (ground arith))
  ],
  λ b. elim b [
    | inl e ↦ rw (e, strip_prefix-append "Bearer " token) refl
    | inr e ↦ rw (e, not_capital token, strip_prefix-append "bearer " token) refl
  ],
)

module _ {V : Type 0} (host : Host V) (identity : IdProvider) where
  pub record Authenticates (headers : HeaderMap V) (user : UserContext) (v : V)
      (text token : String) : Type 0 where
    pub sent : headers.authorization ≡ some v
    pub shown : host.to_str v ≡ some text
    pub bearer : Bears text token
    pub valid : identity.validate token ≡ ok user

  -- A request is authenticated as a user exactly when it has an `Authorization` header that is text
  -- and reads `Bearer ` or `bearer ` and a token that the identity provider takes for that user.
  pub from_request_parts_iff :
      (headers : HeaderMap V) (user : UserContext)
      → (from_request_parts host identity headers ≡ ok user)
        ↔ ((v : V) × (text : String) × (token : String) × Authenticates headers user v text token)
  unfolding from_request_parts
  from_request_parts_iff headers user = (
    λ h. elim (Option-cases headers.authorization) [
      | inl absent ↦ absurd (ground arith)
      | inr (v, sent) ↦ elim (Option-cases (host.to_str v)) [
        | inl opaque ↦ absurd (ground arith)
        | inr (text, shown) ↦ elim (Option-cases (bearer_token text)) [
          | inl other ↦ absurd (ground arith)
          | inr (token, b) ↦ elim (Result-cases (identity.validate token)) [
            | inl (e, x) ↦ absurd (ground arith)
            | inr (u, x) ↦ (
              v,
              text,
              token,
              record {
                sent = sent;
                shown = shown;
                bearer = (bearer_token_iff text token).0 b;
                valid = ground arith;
              },
            )
          ]
        ]
      ]
    ],
    λ (v, text, token, a).
        rw (a.sent, a.shown, (bearer_token_iff text token).1 a.bearer, a.valid) refl,
  )
