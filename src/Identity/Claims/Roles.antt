-- ===== src/Identity/Claims/Roles.antt =====
-- Which roles and groups a user gets from the claims.
use mcp_oxide.Prelude.{String, List, [], ◌∷◌, ◌++◌, eq_iff, ◌≡◌, ◌↔◌, ◌⊎◌, inr, arith}
use mcp_oxide.Core.Json.{Json}
use mcp_oxide.Authz.YamlRbac.Decide.{In}
use mcp_oxide.Identity.Claims.{
  insert_text, sort, onto_dedup, dedup, get_string_vec, collect, gathered, ClaimExtractor, extract,
}

-- some claim at one of the paths names it
abbrev pub Claimed : Json → List String → String → Type 0
Claimed claims [] s = ⊥
Claimed claims (path ∷ paths) s = In s (get_string_vec claims path) ⊎ Claimed claims paths s

In-append : (s : String) (xs ys : List String) → In s (xs ++ ys) ↔ (In s xs ⊎ In s ys)
In-append s [] ys = (λ h. inr h, λ h. ground arith)
In-append s (x ∷ xs) ys =
    let ih = In-append s xs ys in (λ h. ground (arith, ih), λ h. ground (arith, ih))

In-insert_text : (s t : String) (ts : List String) → In s (insert_text t ts) ↔ ((t ≡ s) ⊎ In s ts)
unfolding insert_text
In-insert_text s t [] = (λ h. h, λ h. h)
In-insert_text s t (u ∷ us) =
    let ih = In-insert_text s t us in (λ h. ground (arith, ih), λ h. ground (arith, ih))

In-sort : (s : String) (ts : List String) → In s (sort ts) ↔ In s ts
unfolding sort
In-sort s [] = (λ h. h, λ h. h)
In-sort s (t ∷ ts) =
    let ih = In-sort s ts in
    let step = In-insert_text s t (sort ts) in
    (λ h. ground (arith, ih, step), λ h. ground (arith, ih, step))

In-onto_dedup : (s t : String) (ts : List String) → In s (onto_dedup t ts) ↔ ((t ≡ s) ⊎ In s ts)
In-onto_dedup s t [] = (λ h. h, λ h. h)
In-onto_dedup s t (u ∷ us) = (λ h. ground (arith, eq_iff t u), λ h. ground (arith, eq_iff t u))

In-dedup : (s : String) (ts : List String) → In s (dedup ts) ↔ In s ts
unfolding dedup
In-dedup s [] = (λ h. h, λ h. h)
In-dedup s (t ∷ ts) =
    let ih = In-dedup s ts in
    let step = In-onto_dedup s t (dedup ts) in
    (λ h. ground (arith, ih, step), λ h. ground (arith, ih, step))

In-collect :
    (claims : Json) (paths : List String) (s : String)
    → In s (collect claims paths) ↔ Claimed claims paths s
unfolding collect
In-collect claims [] s = (λ h. h, λ h. h)
In-collect claims (path ∷ paths) s =
    let ih = In-collect claims paths s in
    let step = In-append s (get_string_vec claims path) (collect claims paths) in
    (λ h. ground (arith, ih, step), λ h. ground (arith, ih, step))

In-gathered :
    (claims : Json) (paths : List String) (s : String)
    → In s (gathered claims paths) ↔ Claimed claims paths s
unfolding gathered
In-gathered claims paths s =
    let a = In-dedup s (sort (collect claims paths)) in
    let b = In-sort s (collect claims paths) in
    let c = In-collect claims paths s in (λ h. c.0 (b.0 (a.0 h)), λ h. a.1 (b.1 (c.1 h)))

-- A user has a role exactly when the texts at one of the role paths of the claims name it, and is
-- in a group exactly when those at one of the group paths do: `extract`, which sorts them and drops
-- those that stand twice, loses none and adds none.
pub extract_iff :
    (x : ClaimExtractor) (claims : Json) (s : String)
    → (In s (extract x claims).roles ↔ Claimed claims x.role_paths s)
      × (In s (extract x claims).groups ↔ Claimed claims x.group_paths s)
unfolding extract
extract_iff x claims s = (In-gathered claims x.role_paths s, In-gathered claims x.group_paths s)
