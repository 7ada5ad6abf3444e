-- ===== src/Gateway/ControlPlane/Adapters/Redeploy.antt =====
-- When an update of an adapter has a deployment to renew.
use mcp_oxide.Prelude.{false, ◌==◌, eq_iff, nat_eq_iff, ◌≡◌, ◌↔◌, refl, arith}
use mcp_oxide.Core.Model.{Adapter, env_var_eq, secret_ref_eq}
use mcp_oxide.Core.Model.Equality.{
  option_eq_iff, list_eq_iff, env_var_eq_iff, secret_ref_eq_iff, resources_eq_iff,
}
use mcp_oxide.Gateway.ControlPlane.Adapters.{adapter_deployment_changed}

-- all that the container is made from is the same
pub record SameDeployment (prev a : Adapter) : Type 0 where
  pub image : prev.image.reference ≡ a.image.reference
  pub port : prev.endpoint.port ≡ a.endpoint.port
  pub path : prev.endpoint.path ≡ a.endpoint.path
  pub env : prev.env ≡ a.env
  pub secret_refs : prev.secret_refs ≡ a.secret_refs
  pub replicas : prev.replicas ≡ a.replicas
  pub resources : prev.resources ≡ a.resources
  pub upstream : prev.upstream ≡ a.upstream

same_of_unchanged :
    (prev a : Adapter) → adapter_deployment_changed prev a ≡ false → SameDeployment prev a
unfolding adapter_deployment_changed
same_of_unchanged prev a h = record {
  image = (eq_iff prev.image.reference a.image.reference).0 (ground arith);
  port = (nat_eq_iff prev.endpoint.port a.endpoint.port).0 (ground arith);
  path = (eq_iff prev.endpoint.path a.endpoint.path).0 (ground arith);
  env = (list_eq_iff env_var_eq env_var_eq_iff prev.env a.env).0 (ground arith);
  secret_refs =
      (list_eq_iff secret_ref_eq secret_ref_eq_iff prev.secret_refs a.secret_refs).0 (ground arith);
  replicas = (nat_eq_iff prev.replicas a.replicas).0 (ground arith);
  resources = (resources_eq_iff prev.resources a.resources).0 (ground arith);
  upstream = (option_eq_iff ◌==◌ eq_iff prev.upstream a.upstream).0 (ground arith);
}

unchanged_of_same :
    (prev a : Adapter) → SameDeployment prev a → adapter_deployment_changed prev a ≡ false
unfolding adapter_deployment_changed
unchanged_of_same prev a s =
    rw
      (
        (eq_iff prev.image.reference a.image.reference).1 s.image,
        (nat_eq_iff prev.endpoint.port a.endpoint.port).1 s.port,
        (eq_iff prev.endpoint.path a.endpoint.path).1 s.path,
        (list_eq_iff env_var_eq env_var_eq_iff prev.env a.env).1 s.env,
        (list_eq_iff secret_ref_eq secret_ref_eq_iff prev.secret_refs a.secret_refs).1
            s.secret_refs,
        (nat_eq_iff prev.replicas a.replicas).1 s.replicas,
        (resources_eq_iff prev.resources a.resources).1 s.resources,
        (option_eq_iff ◌==◌ eq_iff prev.upstream a.upstream).1 s.upstream,
      )
      refl

pub adapter_deployment_changed_iff :
    (prev a : Adapter) → (adapter_deployment_changed prev a ≡ false) ↔ SameDeployment prev a
adapter_deployment_changed_iff prev a = (same_of_unchanged prev a, unchanged_of_same prev a)
