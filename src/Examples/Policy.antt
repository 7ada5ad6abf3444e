-- ===== src/Examples/Policy.antt =====
-- Names, entity tags and a policy of one rule.
use mcp_oxide.Prelude.{String, none, some, [], ◌∷◌, ◌≡◌, ◌⊎◌, ◌↔◌, refl, true, is_some, arith}
use mcp_oxide.Core.Error.{ok}
use mcp_oxide.Core.Policy.{PolicyInput, Decision, control_plane}
use mcp_oxide.Authz.YamlRbac.{
  YamlRbacEngine, default_deny, default_allow, action_glob_matches, decide,
}
use mcp_oxide.Authz.YamlRbac.Glob.{Matches, action_glob_matches_iff}
use mcp_oxide.Authz.YamlRbac.Decide.{Grants, SomeRule, decide_iff}
use mcp_oxide.Gateway.Handler.{HeaderMap}
use mcp_oxide.Gateway.Validation.{validate_resource_name, validate_env_var_name}
use mcp_oxide.Gateway.Validation.Names.{IsDnsLabel, validate_resource_name_iff}
use mcp_oxide.Gateway.Validation.EnvVars.{IsPlainEnvName, validate_env_var_name_iff}
use mcp_oxide.Gateway.ControlPlane.Helpers.{adapter, create, policy_input, etag_for, parse_if_match}
use mcp_oxide.Gateway.ControlPlane.Helpers.ETag.{parse_if_match-etag_for}
use mcp_oxide.Examples.{host, host-KeepsText, no_headers, admin}

validate_resource_name_iff_example :
    (validate_resource_name "my-adapter" ≡ ok tt) ↔ IsDnsLabel "my-adapter"
validate_resource_name_iff_example = validate_resource_name_iff "my-adapter"

validate_env_var_name_iff_example :
    (validate_env_var_name "LOG_LEVEL" ≡ ok tt) ↔ IsPlainEnvName "LOG_LEVEL"
validate_env_var_name_iff_example = validate_env_var_name_iff "LOG_LEVEL"

abbrev seven : HeaderMap String
seven = record no_headers { if_match = etag_for host 7 }

parse_if_match-etag_for_example :
    (is_some (etag_for host 7) ≡ true) × (parse_if_match host seven ≡ ok (some 7))
parse_if_match-etag_for_example =
    parse_if_match-etag_for host seven 7 host-KeepsText (omega arith) refl

action_glob_matches_iff_example :
    (action_glob_matches "tools/*" "tools/call" ≡ true) ↔ Matches "tools/*" "tools/call"
action_glob_matches_iff_example = action_glob_matches_iff "tools/*" "tools/call"

abbrev engine : YamlRbacEngine
engine = record {
  policy = record {
    version = 1;
    default = default_deny;
    rules =
        record {
          plane = some control_plane;
          action = "adapters.*";
          target = none;
          target_tags = [];
          allow_roles = "admin" ∷ [];
        }
        ∷ [];
  };
  source = "policy.yaml";
}

abbrev input : PolicyInput
input = policy_input admin adapter create "a" []

decide_iff_example :
    (d : Decision) × (decide engine input ≡ ok d)
    × ((d.allow ≡ true) ↔ (
        SomeRule (λ rule. Grants rule input) engine.policy.rules
        ⊎ (engine.policy.default ≡ default_allow)))
decide_iff_example = decide_iff engine input
