-- ===== src/Text/Prefix.antt =====
-- `strip_prefix` takes off exactly the prefix.
use Prim.Native.Char.{code}
use Prim.Native.String.{[], ◌∷◌, ◌++◌}
use text.Mathlib.TextEquality.{Char-path}
use text.Mathlib.TextLemmas.{nil-append, cons-append}
use mcp_oxide.Prelude.{
  String, is_some, true, Option, none, some, ◌≡◌, ◌↔◌, refl, arith, nat_eq, nat_eq_iff, inl, inr,
  Bool-cases,
}
use mcp_oxide.Text.{strip_prefix, starts_with}

strip_prefix_sound : (p s t : String) → strip_prefix p s ≡ some t → s ≡ p ++ t
unfolding strip_prefix
strip_prefix_sound [] s t h = rw nil-append (ground arith)
strip_prefix_sound (c ∷ p) [] t h = cc
strip_prefix_sound (c ∷ p) (d ∷ s) t h = elim (Bool-cases (nat_eq (code c) (code d))) [
  | inl same ↦ rw cons-append (
      cc (
        Char-path c d ((nat_eq_iff (code c) (code d)).0 same),
        strip_prefix_sound p s t (rw (same, strip_prefix) at h),
      ))
  | inr other ↦ cc (rw (other, strip_prefix) at h)
]

pub strip_prefix-append : (p t : String) → strip_prefix p (p ++ t) ≡ some t
unfolding strip_prefix
strip_prefix-append [] t = rw nil-append
strip_prefix-append (c ∷ p) t = rw cons-append (ground (arith, strip_prefix-append p t))

-- `strip_prefix` answers with `t` exactly for the prefix followed by `t`.
pub strip_prefix_iff : (p s t : String) → (strip_prefix p s ≡ some t) ↔ (s ≡ p ++ t)
strip_prefix_iff p s t = (strip_prefix_sound p s t, λ e. rw e (strip_prefix-append p t))

pub starts_with_iff : (s p : String) → (starts_with s p ≡ true) ↔ ((t : String) × (s ≡ p ++ t))
unfolding starts_with
starts_with_iff s p =
    (λ h. found (strip_prefix p s) refl h, λ (t, e). rw (e, strip_prefix-append p t))
  where
    found :
        (o : Option String) → strip_prefix p s ≡ o → is_some o ≡ true → (t : String) × (s ≡ p ++ t)
    found none e h = cc
    found (some t) e h = (t, strip_prefix_sound p s t e)
