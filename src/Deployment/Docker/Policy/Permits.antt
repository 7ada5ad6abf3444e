-- ===== src/Deployment/Docker/Policy/Permits.antt =====
-- Which images the policy of a provider lets through.
use mcp_oxide.Prelude.{
  String, true, none, List, [], ◌∷◌, ◌≡◌, ◌≢◌, ◌↔◌, ◌⊎◌, inl, inr, refl, arith, Option-cases,
  Bool-cases,
}
use mcp_oxide.Core.Error.{ok}
use mcp_oxide.Authz.YamlRbac.Decide.{In, any_iff}
use mcp_oxide.Deployment.Image.{ImageRef}
use mcp_oxide.Deployment.Docker.Policy.{
  DockerProvider, registry_of, check_registry, check_image_policy,
}

-- an image that the policy lets through
pub record IsPermitted (p : DockerProvider) (image : ImageRef) : Type 0 where
  pub pinned : p.require_digest_pinning ≡ true → image.digest ≢ none
  pub listed : (p.allowed_registries ≡ []) ⊎ In (registry_of image.name) p.allowed_registries

check_registry_iff :
    (allowed : List String) (registry : String)
    → (check_registry allowed registry ≡ ok tt) ↔ ((allowed ≡ []) ⊎ In registry allowed)
check_registry_iff [] registry = (λ h. inl refl, λ h. refl)
check_registry_iff (r ∷ rs) registry = (
  λ h. inr ((any_iff registry (r ∷ rs)).0 (ground arith)),
  λ h. elim h [ inl e ↦ cc | inr m ↦ rw ((any_iff registry (r ∷ rs)).1 m) refl ],
)

pub permits :
    (p : DockerProvider) (image : ImageRef)
    → check_image_policy p image ≡ ok tt
    → IsPermitted p image
unfolding check_image_policy
permits p image h = record {
  pinned = λ asked without. absurd (ground arith);
  listed = (check_registry_iff p.allowed_registries (registry_of image.name)).0 (ground arith);
}

pub permitted_passes :
    (p : DockerProvider) (image : ImageRef)
    → IsPermitted p image
    → check_image_policy p image ≡ ok tt
unfolding check_image_policy
permitted_passes p image h =
    let listed = (check_registry_iff p.allowed_registries (registry_of image.name)).1 h.listed in
    elim (Option-cases image.digest) [
      | inr (d, e) ↦ ground arith
      | inl e ↦ elim (Bool-cases p.require_digest_pinning) [
        | inl asked ↦ absurd (h.pinned asked e)
        | inr other ↦ ground arith
      ]
    ]

-- `check_image_policy` lets an image through exactly when it has a digest, if the provider asks for
-- one, and its registry is on the provider's list, if that is not empty.
pub check_image_policy_iff :
    (p : DockerProvider) (image : ImageRef)
    → (check_image_policy p image ≡ ok tt) ↔ IsPermitted p image
check_image_policy_iff p image = (permits p image, permitted_passes p image)
