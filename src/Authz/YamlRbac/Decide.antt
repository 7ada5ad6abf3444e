-- ===== src/Authz/YamlRbac/Decide.antt =====
-- What a policy grants.
use mcp_oxide.Prelude.{
  String, Bool, true, false, ◌&&◌, ◌||◌, Option, some, none, List, [], ◌∷◌, any, all, All, ◌≡◌, ◌↔◌,
  ◌⊎◌, inl, inr, refl, sym, subst, ◌==◌, eq_iff, arith, Bool-cases,
}
use mcp_oxide.Core.Error.{ok}
use mcp_oxide.Core.Policy.{Plane, PolicyInput, Decision}
use mcp_oxide.Authz.YamlRbac.{
  Rule, YamlRbacEngine, DefaultDecision, default_allow, rule_matches, roles_allowed, decide_by,
  decide, default_decision, plane_allows, target_allows,
}
use mcp_oxide.Authz.YamlRbac.Glob.{Matches, action_glob_matches_iff}

-- a rule with no plane or no target leaves it open
abbrev pub Fits : {A : Type 0} → Option A → A → Type 0
Fits none a = Unit
Fits (some b) a = b ≡ a

abbrev pub In : String → List String → Type 0
In s [] = ⊥
In s (t ∷ ts) = (t ≡ s) ⊎ In s ts

-- some role of the rule is the wildcard or one of the user's
abbrev pub GrantsRole : List String → List String → Type 0
GrantsRole [] user_roles = ⊥
GrantsRole (r ∷ allow_roles) user_roles =
    (r ≡ "*") ⊎ In r user_roles ⊎ GrantsRole allow_roles user_roles

pub record Grants (rule : Rule) (input : PolicyInput) : Type 0 where
  pub plane : Fits rule.plane input.action.plane
  pub action : Matches rule.action input.action.method
  pub target : Fits rule.target input.resource.name
  pub tags : All (λ tag. In tag input.resource.tags) rule.target_tags
  pub roles : GrantsRole rule.allow_roles input.user.roles

abbrev pub SomeRule : (Rule → Type 0) → List Rule → Type 0
SomeRule P [] = ⊥
SomeRule P (rule ∷ rules) = P rule ⊎ SomeRule P rules

pub any_iff : (s : String) (ts : List String) → (any (λ r. r == s) ts ≡ true) ↔ In s ts
any_iff s [] = (λ h. cc, λ h. absurd h)
any_iff s (t ∷ ts) =
    let ih = any_iff s ts in
    (λ h. ground (arith, eq_iff t s, ih), λ h. ground (arith, eq_iff t s, ih))

all_iff :
    (tags ts : List String)
    → (all (λ tag. any (λ r. r == tag) ts) tags ≡ true) ↔ All (λ tag. In tag ts) tags
all_iff [] ts = (λ h. tt, λ h. refl)
all_iff (tag ∷ tags) ts =
    let ih = all_iff tags ts in
    (
      λ h. (ground (arith, any_iff tag ts), ground (arith, ih)),
      λ h. ground (arith, any_iff tag ts, ih, h.0, h.1),
    )

roles_iff :
    (roles user_roles : List String)
    → (roles_allowed roles user_roles ≡ true) ↔ GrantsRole roles user_roles
unfolding roles_allowed
roles_iff [] user_roles = (λ h. cc, λ h. absurd h)
roles_iff (r ∷ roles) user_roles =
    let ih = roles_iff roles user_roles in
    (
      λ h. ground (arith, eq_iff r "*", any_iff r user_roles, ih),
      λ h. ground (arith, eq_iff r "*", any_iff r user_roles, ih),
    )

plane_iff : (o : Option Plane) (p : Plane) → (plane_allows o p ≡ true) ↔ Fits o p
plane_iff none p = (λ h. tt, λ h. refl)
plane_iff (some q) p = (λ h. ground arith, λ h. ground arith)

target_iff : (o : Option String) (name : String) → (target_allows o name ≡ true) ↔ Fits o name
target_iff none name = (λ h. tt, λ h. refl)
target_iff (some t) name = eq_iff t name

abbrev allows_by : Rule → PolicyInput → Bool
allows_by rule input = rule_matches rule input && roles_allowed rule.allow_roles input.user.roles

rule_iff : (rule : Rule) (input : PolicyInput) → (allows_by rule input ≡ true) ↔ Grants rule input
unfolding rule_matches
rule_iff rule input =
    let tags = all_iff rule.target_tags input.resource.tags in
    let roles = roles_iff rule.allow_roles input.user.roles in
    let plane = plane_iff rule.plane input.action.plane in
    let target = target_iff rule.target input.resource.name in
    let action = action_glob_matches_iff rule.action input.action.method in
    (
      λ h. record {
        plane = plane.0 (ground arith);
        action = action.0 (ground arith);
        target = target.0 (ground arith);
        tags = tags.0 (ground arith);
        roles = roles.0 (ground arith);
      },
      λ g. ground (
        arith,
        plane.1 g.plane,
        action.1 g.action,
        target.1 g.target,
        tags.1 g.tags,
        roles.1 g.roles,
      ),
    )

default_iff :
    (engine : YamlRbacEngine) (d : DefaultDecision)
    → ((default_decision engine d).allow ≡ true) ↔ (d ≡ default_allow)
default_iff engine d = (λ h. ground arith, λ h. ground arith)

decide_by-cons :
    (engine : YamlRbacEngine) (rule : Rule) (rules : List Rule) (input : PolicyInput)
    → (decide_by engine (rule ∷ rules) input).allow
      ≡ (allows_by rule input || (decide_by engine rules input).allow)
unfolding decide_by
decide_by-cons engine rule rules input = elim (Bool-cases (allows_by rule input)) [
  | inl y ↦ ground arith
  | inr n ↦ ground arith
]

false-true : (false ≡ true) → ⊥
false-true h = cc

or_iff :
    {P Q R : Type 0} (b c : Bool)
    → (b ≡ true) ↔ P
    → (c ≡ true) ↔ (Q ⊎ R)
    → ((b || c) ≡ true) ↔ ((P ⊎ Q) ⊎ R)
or_iff true c first rest = (λ h. inl (inl (first.0 refl)), λ h. refl)
or_iff false c first rest = (
  λ h. elim (rest.0 h) [ inl q ↦ inl (inr q) | inr r ↦ inr r ],
  λ h. elim h [
    | inl (inl p) ↦ elim (Bool-cases c) [ inl y ↦ y | inr n ↦ absurd (false-true (first.1 p)) ]
    | inl (inr q) ↦ rest.1 (inl q)
    | inr r ↦ rest.1 (inr r)
  ],
)

decide_by_iff :
    (engine : YamlRbacEngine) (rules : List Rule) (input : PolicyInput)
    → ((decide_by engine rules input).allow ≡ true)
      ↔ (SomeRule (λ rule. Grants rule input) rules ⊎ (engine.policy.default ≡ default_allow))
unfolding decide_by
decide_by_iff engine [] input = (
  λ h. inr ((default_iff engine engine.policy.default).0 h),
  λ h. ground (arith, default_iff engine engine.policy.default),
)
decide_by_iff engine (rule ∷ rules) input =
    subst
      (λ b.
        (b ≡ true)
        ↔ (SomeRule (λ r. Grants r input) (rule ∷ rules) ⊎ (engine.policy.default ≡ default_allow)))
      (sym (decide_by-cons engine rule rules input))
      (or_iff (allows_by rule input) (decide_by engine rules input).allow (rule_iff rule input)
        (decide_by_iff engine rules input))

-- The engine always decides, and it allows a request exactly when some rule of the policy grants
-- it, that is fits its plane, action, target and tags and names one of the user's roles or "*", or
-- when the default is to allow.
pub decide_iff :
    (engine : YamlRbacEngine) (input : PolicyInput)
    → (d : Decision) × (decide engine input ≡ ok d)
      × ((d.allow ≡ true) ↔ (
          SomeRule (λ rule. Grants rule input) engine.policy.rules
          ⊎ (engine.policy.default ≡ default_allow)))
unfolding decide
decide_iff engine input = (
  decide_by engine engine.policy.rules input,
  refl,
  decide_by_iff engine engine.policy.rules input,
)
