-- ===== src/Authz.antt =====
-- crates/authz/src: the policy engines.
pub mod YamlRbac
use mcp_oxide.Core.Error.{ok}
use mcp_oxide.Core.Policy.{deny_decision}
use mcp_oxide.Core.Providers.{PolicyEngine}

-- `DenyAllPolicyEngine`
abbrev pub deny_all_engine : PolicyEngine
deny_all_engine = record { decide = λ _. ok (deny_decision "default-deny") }
