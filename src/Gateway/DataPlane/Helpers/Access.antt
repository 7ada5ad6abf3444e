-- ===== src/Gateway/DataPlane/Helpers/Access.antt =====
-- Who is let through to the data plane.
use mcp_oxide.Prelude.{String, true, List, [], ◌∷◌, any, ◌==◌, ◌≡◌, ◌↔◌, ◌⊎◌, inl, inr, refl, arith}
use mcp_oxide.Core.Error.{Error, Result, ok}
use mcp_oxide.Core.Policy.{Decision}
use mcp_oxide.Authz.YamlRbac.Decide.{In, any_iff}
use mcp_oxide.Gateway.DataPlane.Helpers.{DataPlaneAuthz, required_roles_satisfied}

-- some role of the first list is in the second
abbrev pub Meets : List String → List String → Type 0
Meets [] user_roles = ⊥
Meets (r ∷ rs) user_roles = In r user_roles ⊎ Meets rs user_roles

abbrev pub RolesMet : List String → List String → Type 0
RolesMet required user_roles = (required ≡ []) ⊎ Meets required user_roles

Meets-iff : (rs us : List String) → (any (λ q. any (λ u. u == q) us) rs ≡ true) ↔ Meets rs us
Meets-iff [] us = (λ h. cc, λ h. absurd h)
Meets-iff (r ∷ rs) us =
    let ih = Meets-iff rs us in
    (λ h. ground (arith, any_iff r us, ih), λ h. ground (arith, any_iff r us, ih))

pub RolesMet-iff : (rs us : List String) → (required_roles_satisfied rs us ≡ true) ↔ RolesMet rs us
unfolding required_roles_satisfied
RolesMet-iff [] us = (λ h. inl refl, λ h. refl)
RolesMet-iff (r ∷ rs) us = (
  λ h. inr ((Meets-iff (r ∷ rs) us).0 h),
  λ h. elim h [ inl e ↦ cc | inr m ↦ (Meets-iff (r ∷ rs) us).1 m ],
)

-- what lets a request pass
pub record Passes (answer : Result Error Decision) (required user_roles : List String)
    (authz : DataPlaneAuthz) : Type 0 where
  pub decision :
      (d : Decision) × (answer ≡ ok d) × (d.allow ≡ true) × (d.policy_id ≡ authz.policy_id)
  pub roles : RolesMet required user_roles
