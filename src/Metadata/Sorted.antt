-- ===== src/Metadata/Sorted.antt =====
-- The map that crates/metadata/src/memory.rs keeps its records in: pairs ascending by key, as a
-- `BTreeMap<String, _>` presents them.
use mcp_oxide.Prelude.{
  String, Option, none, some, List, [], ◌∷◌, ◌≡◌, refl, ◌==◌, eq_iff, arith, if◌then◌else◌,
}
use Prim.Native.Nat.{Ordering}
use Prim.Native.String.{compare}
use text.Mathlib.TextEquality.{path_by_compare}
use text.Mathlib.TextPositions.{compare_refl}

module _ {V : Type 0} where
  unfoldable pub get : String → List (String × V) → Option V
  get k [] = none
  get k (entry ∷ rest) = if entry.0 == k then some entry.1 else get k rest

  unfoldable pub insert : String → V → List (String × V) → List (String × V)
  insert k v [] = (k, v) ∷ []
  insert k v (entry ∷ rest) = elim (compare k entry.0) [
    | Ordering.lt ↦ (k, v) ∷ entry ∷ rest
    | Ordering.eq ↦ (k, v) ∷ rest
    | Ordering.gt ↦ entry ∷ insert k v rest
  ]

  unfoldable pub remove : String → List (String × V) → List (String × V)
  remove k [] = []
  remove k (entry ∷ rest) = if entry.0 == k then remove k rest else entry ∷ remove k rest

  unfoldable pub values : List (String × V) → List V
  values [] = []
  values (entry ∷ rest) = entry.1 ∷ values rest

  pub get-insert :
      (x k : String) (v : V) (m : List (String × V))
      → get x (insert k v m) ≡ (if k == x then some v else get x m)
  unfolding get insert
  get-insert x k v [] = refl
  get-insert x k v (entry ∷ rest) =
      let ih = get-insert x k v rest in
      let same = path_by_compare k entry.0 in
      let self = compare_refl k in ground (arith, ih, same, self, eq_iff k x, eq_iff entry.0 x)

  pub get-remove :
      (x k : String) (m : List (String × V))
      → get x (remove k m) ≡ (if k == x then none else get x m)
  unfolding get remove
  get-remove x k [] = ground arith
  get-remove x k (entry ∷ rest) =
      let ih = get-remove x k rest in
      ground (arith, ih, eq_iff k x, eq_iff entry.0 x, eq_iff entry.0 k)
