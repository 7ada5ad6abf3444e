-- ===== src/Identity/Claims.antt =====
-- crates/identity/src/claims.rs: what a token's claims say of its user.
pub mod Roles
use Prim.Native.Nat.{Ordering}
use Prim.Native.String.{compare}
use mcp_oxide.Prelude.{
  String, Bool, true, false, Option, none, some, List, [], ◌∷◌, ◌++◌, ◌==◌, unwrap_or,
  if◌then◌else◌,
}
use mcp_oxide.Text.{split, split_whitespace}
use mcp_oxide.Core.Json.{Json, array, Items, nil, cons, get, as_str}
use mcp_oxide.Core.Identity.{UserContext}

-- `slice::sort` of texts, and `Vec::dedup`, which keeps one of equal neighbours
unfoldable pub insert_text : String → List String → List String
insert_text s [] = s ∷ []
insert_text s (t ∷ ts) = elim (compare s t) [ Ordering.gt ↦ t ∷ insert_text s ts | _ ↦ s ∷ t ∷ ts ]

unfoldable pub sort : List String → List String
sort [] = []
sort (s ∷ ss) = insert_text s (sort ss)

abbrev pub onto_dedup : String → List String → List String
onto_dedup s [] = s ∷ []
onto_dedup s (t ∷ ts) = if s == t then t ∷ ts else s ∷ t ∷ ts

unfoldable pub dedup : List String → List String
dedup [] = []
dedup (s ∷ ss) = onto_dedup s (dedup ss)

pub record ClaimExtractor : Type 0 where
  pub role_paths : List String
  pub group_paths : List String
  pub tenant_path : Option String
  pub scopes_path : String

abbrev pub default_extractor : ClaimExtractor
default_extractor = record {
  role_paths = "realm_access.roles" ∷ "roles" ∷ [];
  group_paths = "groups" ∷ [];
  tenant_path = some "tenant";
  scopes_path = "scope";
}

unfoldable pub follow : List String → Json → Option Json
follow [] v = some v
follow (segment ∷ rest) v = elim (get segment v) [ none ↦ none | some w ↦ follow rest w ]

-- a dotted path
unfoldable pub get_path : Json → String → Option Json
get_path v path = follow (split b'.' path) v

unfoldable pub get_string : Json → String → Option String
get_string v path = elim (get_path v path) [ none ↦ none | some w ↦ as_str w ]

-- the texts among the items
unfoldable pub texts : Items → List String
texts nil = []
texts (cons v vs) = let rest = texts vs in elim (as_str v) [ none ↦ rest | some s ↦ s ∷ rest ]

abbrev texts_of : Option Json → List String
texts_of (some (array vs)) = texts vs
texts_of _ = []

unfoldable pub get_string_vec : Json → String → List String
get_string_vec v path = texts_of (get_path v path)

-- the loop over the paths, and the sorting
unfoldable pub collect : Json → List String → List String
collect claims [] = []
collect claims (path ∷ paths) = get_string_vec claims path ++ collect claims paths

unfoldable pub gathered : Json → List String → List String
gathered claims paths = dedup (sort (collect claims paths))

abbrev tenant_at : Json → Option String → Option String
tenant_at claims none = none
tenant_at claims (some path) = get_string claims path

abbrev scopes_in : Option String → List String
scopes_in none = []
scopes_in (some s) = split_whitespace s

unfoldable pub extract : ClaimExtractor → Json → UserContext
extract x claims = record {
  sub = unwrap_or "" (get_string claims "sub");
  tenant = tenant_at claims x.tenant_path;
  roles = gathered claims x.role_paths;
  groups = gathered claims x.group_paths;
  scopes = scopes_in (get_string claims x.scopes_path);
  claims = claims;
}
