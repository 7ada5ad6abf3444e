-- ===== src/Gateway/ControlPlane/Tools/Redeploy.antt =====
-- When an update of a tool has a deployment to renew.
use mcp_oxide.Prelude.{false, eq_iff, nat_eq_iff, ◌≡◌, ◌↔◌, refl, arith}
use mcp_oxide.Core.Model.{Tool, env_var_eq, secret_ref_eq}
use mcp_oxide.Core.Model.Equality.{list_eq_iff, env_var_eq_iff, secret_ref_eq_iff, resources_eq_iff}
use mcp_oxide.Gateway.ControlPlane.Tools.{tool_deployment_changed}

-- all that the container is made from is the same
pub record SameDeployment (prev a : Tool) : Type 0 where
  pub image : prev.image.reference ≡ a.image.reference
  pub port : prev.endpoint.port ≡ a.endpoint.port
  pub path : prev.endpoint.path ≡ a.endpoint.path
  pub env : prev.env ≡ a.env
  pub secret_refs : prev.secret_refs ≡ a.secret_refs
  pub resources : prev.resources ≡ a.resources

same_of_unchanged : (prev a : Tool) → tool_deployment_changed prev a ≡ false → SameDeployment prev a
unfolding tool_deployment_changed
same_of_unchanged prev a h = record {
  image = (eq_iff prev.image.reference a.image.reference).0 (ground arith);
  port = (nat_eq_iff prev.endpoint.port a.endpoint.port).0 (ground arith);
  path = (eq_iff prev.endpoint.path a.endpoint.path).0 (ground arith);
  env = (list_eq_iff env_var_eq env_var_eq_iff prev.env a.env).0 (ground arith);
  secret_refs =
      (list_eq_iff secret_ref_eq secret_ref_eq_iff prev.secret_refs a.secret_refs).0 (ground arith);
  resources = (resources_eq_iff prev.resources a.resources).0 (ground arith);
}

unchanged_of_same : (prev a : Tool) → SameDeployment prev a → tool_deployment_changed prev a ≡ false
unfolding tool_deployment_changed
unchanged_of_same prev a s =
    rw
      (
        (eq_iff prev.image.reference a.image.reference).1 s.image,
        (nat_eq_iff prev.endpoint.port a.endpoint.port).1 s.port,
        (eq_iff prev.endpoint.path a.endpoint.path).1 s.path,
        (list_eq_iff env_var_eq env_var_eq_iff prev.env a.env).1 s.env,
        (list_eq_iff secret_ref_eq secret_ref_eq_iff prev.secret_refs a.secret_refs).1
            s.secret_refs,
        (resources_eq_iff prev.resources a.resources).1 s.resources,
      )
      refl

pub tool_deployment_changed_iff :
    (prev a : Tool) → (tool_deployment_changed prev a ≡ false) ↔ SameDeployment prev a
tool_deployment_changed_iff prev a = (same_of_unchanged prev a, unchanged_of_same prev a)
