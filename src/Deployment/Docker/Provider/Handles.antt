-- ===== src/Deployment/Docker/Provider/Handles.antt =====
-- What the provider refuses, and which container a handle stands for.
use Prim.Native.String.{count, ◌++◌}
use text.Mathlib.TextLemmas.{length-append}
use mcp_oxide.Prelude.{
  String, Bool, true, false, List, [], ◌∷◌, any, ◌==◌, not, ◌&&◌, ◌≡◌, ◌≢◌, ◌⊎◌, inl, inr, refl, ap,
  sym, ◌∙◌, arith, if◌then◌else◌,
}
use mcp_oxide.Deployment.Docker.Provider.{handle_at}
use mcp_oxide.Core.Error.{Error, invalid_request, Result, ok, err}
use mcp_oxide.Core.Providers.{DeploymentSpec, DeploymentHandle}
use mcp_oxide.Deployment.Image.{ImageRef, parse, is_digest_pinned}
use mcp_oxide.Deployment.Docker.Daemon.{Daemon, Floats}
use mcp_oxide.Deployment.Docker.Policy.{
  DockerProvider, Workload, container_name, kind_str, registry_of, check_registry,
  check_image_policy, extract_spec,
}
use mcp_oxide.Deployment.Docker.Policy.Permits.{IsPermitted, permits}
use mcp_oxide.Deployment.Docker.Container.{create_container}
use mcp_oxide.Deployment.Docker.Provider.{is_running, apply}
use mcp_oxide.Deployment.Docker.Provider.Applied.{apply_iff}
use mcp_oxide.Gateway.ControlPlane.Helpers.{handle_for}

abbrev OkOrRefused : Result Error (Unit {0}) → Type 0
OkOrRefused r = (r ≡ ok tt) ⊎ ((m : String) × (r ≡ err (invalid_request m)))

guarded_cases :
    (test : Bool) (a b : Result Error (Unit {0}))
    → OkOrRefused a
    → OkOrRefused b
    → OkOrRefused (if test then a else b)
guarded_cases true a b h k = h
guarded_cases false a b h k = k

registry_cases :
    (allowed : List String) (registry : String) → OkOrRefused (check_registry allowed registry)
registry_cases [] registry = inl refl
registry_cases (r ∷ rs) registry =
    guarded_cases (any (λ s. s == registry) (r ∷ rs)) _ _ (inl refl) (inr (_, refl))

-- the policy either lets an image through or refuses it as an invalid request
policy_cases : (p : DockerProvider) (image : ImageRef) → OkOrRefused (check_image_policy p image)
unfolding check_image_policy
policy_cases p image =
    guarded_cases (p.require_digest_pinning && not (is_digest_pinned image)) _ _ (inr (_, refl))
      (registry_cases p.allowed_registries (registry_of image.name))

container_name-ne : (kind name : String) → container_name kind name ≢ name
unfolding container_name
container_name-ne kind name e = absurd (
    omega (
      arith,
      ap count e,
      length-append "mcp-oxide-" (kind ++ ("-" ++ name)),
      length-append kind ("-" ++ name),
      length-append "-" name,
    ))

module _ {D F : Type 0} (docker : Daemon D) (floats : Floats F) (p : DockerProvider) where
  -- Where the container of a specification does not run and its image is not permitted, `apply`
  -- fails as an invalid request and the daemon stays as it was: nothing is pulled or made.
  pub apply_refused :
      (spec : DeploymentSpec) (work : Workload) (image : ImageRef) (d : D)
      → extract_spec spec ≡ ok work
      → parse work.reference ≡ ok image
      → ¬ (IsPermitted p image)
      → is_running docker p (container_name (kind_str spec.kind) spec.name) d ≡ false
      → (m : String) × (apply docker p floats spec d ≡ (err (invalid_request m), d))
  unfolding apply create_container
  apply_refused spec work image d extracted parsed refused idle = elim (policy_cases p image) [
    | inl x ↦ absurd (refused (permits p image x))
    | inr (m, x) ↦ (m, rw (extracted, idle, create_container, extracted, parsed, x) refl)
  ]

  -- The handle that an `apply` returns is not the one that the gateway rebuilds from the name of
  -- the specification with `handle_for`: they stand for different containers.
  pub apply-handle_for :
      (spec : DeploymentSpec) (handle : DeploymentHandle) (d d' : D)
      → apply docker p floats spec d ≡ (ok handle, d')
      → handle.id ≢ (handle_for spec.name).id
  unfolding handle_at
  apply-handle_for spec handle d d' h same =
      let a = (apply_iff docker floats p spec handle d d').0 h in
      container_name-ne (kind_str spec.kind) spec.name
        (sym (ap (λ (x : DeploymentHandle). x.id) a.handled) ∙ same)
