-- ===== src/Authz/YamlRbac.antt =====
-- crates/authz/src/yaml_rbac.rs: the decision of a policy of rules. The rules are those that
-- `serde_yaml` read; the `version` is tested when the engine is built.
pub mod Glob
pub mod Decide
use mcp_oxide.Prelude.{
  ℕ, String, Bool, true, false, not, ◌&&◌, ◌||◌, Option, none, some, List, [], ◌∷◌, any, all, ◌==◌,
  nat_eq, if◌then◌else◌,
}
use mcp_oxide.Text.{format, strip_suffix, starts_with}
use mcp_oxide.Text.Decimal.{to_decimal}
use mcp_oxide.Core.Error.{Error, internal, Result, ok, err}
use mcp_oxide.Core.Policy.{Plane, control_plane, data_plane, PolicyInput, Decision}
use mcp_oxide.Core.Providers.{PolicyEngine}

pub data DefaultDecision : Type 0 where
  default_allow default_deny : DefaultDecision

pub record Rule : Type 0 where
  pub plane : Option Plane
  pub action : String
  pub target : Option String
  pub target_tags : List String
  pub allow_roles : List String

pub record YamlRbacPolicy : Type 0 where
  pub version : ℕ
  pub default : DefaultDecision
  pub rules : List Rule

pub record YamlRbacEngine : Type 0 where
  pub policy : YamlRbacPolicy
  pub source : String

-- `from_str`, after the YAML was read
unfoldable pub engine_of_policy : YamlRbacPolicy → String → Result Error YamlRbacEngine
engine_of_policy policy source =
    if not (nat_eq policy.version 1)
    then err (
        internal (
          format
            ("policy version " ∷ to_decimal policy.version ∷ " unsupported (expected 1)" ∷ [])))
    else ok (record { policy = policy; source = source })

abbrev pub plane_eq : Plane → Plane → Bool
plane_eq control_plane control_plane = true
plane_eq data_plane data_plane = true
plane_eq _ _ = false

-- the tests behind `strip_suffix(".*")` and `strip_suffix('*')`
abbrev star_matches : Option String → String → Bool
star_matches none action = false
star_matches (some prefix) action = starts_with action prefix

abbrev dot_star_matches : Option String → String → String → Bool
dot_star_matches (some prefix) pattern action =
    action == prefix || starts_with action (format (prefix ∷ "." ∷ []))
dot_star_matches none pattern action = star_matches (strip_suffix "*" pattern) action

unfoldable pub action_glob_matches : String → String → Bool
action_glob_matches pattern action =
    if pattern == "*" || pattern == action
    then true
    else dot_star_matches (strip_suffix ".*" pattern) pattern action

abbrev plane_allows : Option Plane → Plane → Bool
plane_allows none plane = true
plane_allows (some p) plane = plane_eq p plane

abbrev target_allows : Option String → String → Bool
target_allows none name = true
target_allows (some t) name = t == name

-- the early returns of `rule_matches`, as a conjunction
unfoldable pub rule_matches : Rule → PolicyInput → Bool
rule_matches rule input =
    if not (plane_allows rule.plane input.action.plane)
    then false
    else if not (action_glob_matches rule.action input.action.method)
    then false
    else if not (target_allows rule.target input.resource.name)
    then false
    else all (λ tag. any (λ r. r == tag) input.resource.tags) rule.target_tags

-- the loop of `roles_allowed`; over no role it answers `false`
unfoldable pub roles_allowed : List String → List String → Bool
roles_allowed [] user_roles = false
roles_allowed (r ∷ allow_roles) user_roles =
    if r == "*" || any (λ u. u == r) user_roles then true else roles_allowed allow_roles user_roles

abbrev policy_id_of : YamlRbacEngine → Option String
policy_id_of engine = some (format ("yaml-rbac:" ∷ engine.source ∷ []))

abbrev rule_decision : YamlRbacEngine → Rule → Decision
rule_decision engine rule = record {
  allow = true;
  reason = some (format ("rule:" ∷ rule.action ∷ []));
  policy_id = policy_id_of engine;
}

abbrev default_decision : YamlRbacEngine → DefaultDecision → Decision
default_decision engine default_allow = record {
  allow = true;
  reason = some "default-allow";
  policy_id = policy_id_of engine;
}
default_decision engine default_deny = record {
  allow = false;
  reason = some "default-deny";
  policy_id = policy_id_of engine;
}

-- the loop over the rules
unfoldable pub decide_by : YamlRbacEngine → List Rule → PolicyInput → Decision
decide_by engine [] input = default_decision engine engine.policy.default
decide_by engine (rule ∷ rules) input =
    if rule_matches rule input && roles_allowed rule.allow_roles input.user.roles
    then rule_decision engine rule
    else decide_by engine rules input

unfoldable pub decide : YamlRbacEngine → PolicyInput → Result Error Decision
decide engine input = ok (decide_by engine engine.policy.rules input)

abbrev pub yaml_rbac_engine : YamlRbacEngine → PolicyEngine
yaml_rbac_engine engine = record { decide = decide engine }

-- `serde_yaml::from_str` and `fs::read_to_string`
module _ (from_yaml : String → Result String YamlRbacPolicy)
    (read_to_string : String → Result String String) where
  abbrev engine_from : String → Result String YamlRbacPolicy → Result Error YamlRbacEngine
  engine_from source (err e) = err (internal (format ("policy yaml: " ∷ e ∷ [])))
  engine_from source (ok policy) = engine_of_policy policy source

  unfoldable pub from_str : String → String → Result Error YamlRbacEngine
  from_str yaml source = engine_from source (from_yaml yaml)

  abbrev engine_at : String → Result String String → Result Error YamlRbacEngine
  engine_at path (err e) = err (internal (format ("policy read " ∷ path ∷ ": " ∷ e ∷ [])))
  engine_at path (ok text) = from_str text path

  unfoldable pub from_path : String → Result Error YamlRbacEngine
  from_path path = engine_at path (read_to_string path)
