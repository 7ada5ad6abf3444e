-- ===== src/Gateway/ControlPlane/Guarantees.antt =====
-- What the handlers of crates/gateway/src/routes/control_plane.rs promise, apart from their code:
-- that the policy engine allowed a request, what the audit record of it says, which revisions are
-- the expected ones, and which environments are permitted.
use mcp_oxide.Prelude.{
  ◌≢◌, ◌==◌, eq_iff, eq_refl, String, true, Option, none, some, List, [], ◌∷◌, All, ◌≡◌, ◌⊎◌, inl,
  inr, refl, ap, arith, Bool-cases, Option-cases,
}
use mcp_oxide.Text.{format}
use mcp_oxide.Core.Error.{Error, not_found, Result, ok, err, Result-cases}
use mcp_oxide.Core.Identity.{UserContext}
use mcp_oxide.Core.Model.{SessionAffinity, sticky, no_affinity}
use mcp_oxide.Core.Policy.{control_plane, ResourceKind, Decision, default_env}
use mcp_oxide.Core.Audit.{allow, AuditRecord}
use mcp_oxide.Core.Providers.{PolicyEngine}
use mcp_oxide.Gateway.State.{World}
use mcp_oxide.Gateway.Handler.{Host, HeaderMap}
use mcp_oxide.Gateway.Validation.{validate_env_var_name}
use mcp_oxide.Gateway.Validation.EnvVars.{IsPlainEnvName, validate_env_var_name_iff}
use mcp_oxide.Gateway.ControlPlane.Helpers.{
  CpKind, CpVerb, authorize, action_name, resource_kind, kind_str, extract_trace_id, location_for,
}
use mcp_oxide.Gateway.ControlPlane.Bodies.{EnvVarBody}
use mcp_oxide.Gateway.ControlPlane.Steps.{
  affinity_of, check_env, check_env_option, check_revision, undeployed,
}

-- The engine, asked whether the user may do `method` to the resource, says yes and names the
-- policy.
pub record Allowed (authz : PolicyEngine) (user : UserContext) (kind : ResourceKind)
    (method name : String) (tags : List String) (policy_id : Option String) : Type 0 where
  pub decision : Decision
  pub answered :
      authz.decide (record {
        user = user;
        action = record { plane = control_plane; method = method; tool = none };
        resource = record { kind = kind; name = name; tags = tags; required_roles = [] };
        env = record { ip = none; region = none };
      })
      ≡ ok decision
  pub allows : decision.allow ≡ true
  pub policy : decision.policy_id ≡ policy_id

pub authorize-Allowed :
    (authz : PolicyEngine) (user : UserContext) (kind : CpKind) (verb : CpVerb) (name : String)
    (tags : List String) {policy_id : Option String}
    → authorize authz user kind verb name tags ≡ ok policy_id
    → Allowed authz user (resource_kind kind) (action_name kind verb) name tags policy_id
unfolding authorize
authorize-Allowed authz user kind verb name tags h =
    elim (Result-cases (
      authz.decide (record {
        user = user;
        action = record { plane = control_plane; method = action_name kind verb; tool = none };
        resource = record {
          kind = resource_kind kind;
          name = name;
          tags = tags;
          required_roles = [];
        };
        env = default_env;
      }))) [
        | inl (e, x) ↦ absurd (ground arith)
        | inr (d, x) ↦ elim (Bool-cases d.allow) [
          | inl allows ↦ record {
            decision = d;
            answered = x;
            allows = allows;
            policy = ground arith;
          }
          | inr refuses ↦ absurd (ground arith)
        ]
      ]

module _ {V M D : Type 0} (host : Host V) (user : UserContext) (headers : HeaderMap V) where
  -- one audit record more, which says that the policy allowed the user `method` on the target
  pub record Audited (method kind name : String) (policy_id : Option String) (w w' : World M D)
      : Type 0 where
    pub entry : AuditRecord
    pub added : w'.audit ≡ entry ∷ w.audit
    pub decision : entry.decision ≡ allow
    pub policy : entry.policy_id ≡ policy_id
    pub error : entry.error ≡ none
    pub who :
        (entry.user.sub ≡ user.sub)
        × (entry.user.tenant ≡ user.tenant)
        × (entry.user.roles ≡ user.roles)
    pub action : entry.action ≡ method
    pub on : (entry.target.kind ≡ kind) × (entry.target.name ≡ name)
    pub trace : entry.trace_id ≡ extract_trace_id host headers

pub location_for_sent :
    {V : Type 0} (host : Host V) (kind : CpKind) (name : String) {v : V}
    → location_for host kind name ≡ ok v
    → host.from_str (format ("/" ∷ kind_str kind ∷ "s/" ∷ name ∷ [])) ≡ some v
unfolding location_for
location_for_sent host kind name h =
    elim (Option-cases (host.from_str (format ("/" ∷ kind_str kind ∷ "s/" ∷ name ∷ [])))) [
      | inl e ↦ absurd (ground arith)
      | inr (v, e) ↦ ground arith
    ]

-- no revision is expected, or the one that the record has
abbrev pub AsExpected {ℓ} : {A : Type ℓ} → Option A → Option A → Type ℓ
AsExpected none actual = Unit
AsExpected (some rev) actual = actual ≡ some rev

-- a deployment was deleted, or was missing already
abbrev pub DeletedOrMissing : Result Error Unit → Type 0
DeletedOrMissing r = (r ≡ ok tt) ⊎ ((m : String) × (r ≡ err (not_found m)))

pub check_revision-AsExpected :
    (expected actual : Option _)
    → check_revision expected actual ≡ ok tt
    → AsExpected expected actual
check_revision-AsExpected none actual h = tt
check_revision-AsExpected (some rev) none h = absurd (ground arith)
check_revision-AsExpected (some rev) (some own) h = ap some (ground arith)

pub undeployed-DeletedOrMissing :
    (r : Result Error Unit) → undeployed r ≡ ok tt → DeletedOrMissing r
undeployed-DeletedOrMissing (ok tt) h = inl refl
undeployed-DeletedOrMissing (err (not_found m)) h = inr (m, refl)
undeployed-DeletedOrMissing (err _) h = absurd (ground arith)

-- no variable of the environment has an empty, ill-formed or reserved name
abbrev pub IsPermitted : List EnvVarBody → Type 0
IsPermitted env = All (λ (e : EnvVarBody). IsPlainEnvName e.name) env

abbrev pub IsPermittedOption : Option (List EnvVarBody) → Type 0
IsPermittedOption none = Unit
IsPermittedOption (some env) = IsPermitted env

pub check_env-IsPermitted : (env : List EnvVarBody) → check_env env ≡ ok tt → IsPermitted env
unfolding check_env
check_env-IsPermitted [] h = tt
check_env-IsPermitted (e ∷ env) h = elim (Result-cases (validate_env_var_name e.name)) [
  | inl (x, q) ↦ absurd (ground arith)
  | inr (tt, q) ↦ ((validate_env_var_name_iff e.name).0 q, check_env-IsPermitted env (ground arith))
]

pub check_env_option-IsPermitted :
    (env : Option (List EnvVarBody)) → check_env_option env ≡ ok tt → IsPermittedOption env
check_env_option-IsPermitted none h = tt
check_env_option-IsPermitted (some env) h = check_env-IsPermitted env h

-- the text `none` asks for no affinity, every other text and no text for sticky sessions
abbrev pub IsAffinityFor : Option String → SessionAffinity → Type 0
IsAffinityFor wish a =
    ((wish ≡ some "none") × (a ≡ no_affinity)) ⊎ ((wish ≢ some "none") × (a ≡ sticky))

pub affinity_of-IsAffinityFor : (wish : Option String) → IsAffinityFor wish (affinity_of wish)
affinity_of-IsAffinityFor none = inr (λ e. cc, refl)
affinity_of-IsAffinityFor (some s) = elim (Bool-cases (s == "none")) [
  | inl same ↦ inl (ap some ((eq_iff s "none").0 same), rw same refl)
  | inr other ↦ inr (λ e. absurd (ground (arith, eq_iff s "none", eq_refl s)), rw other refl)
]
