-- ===== src/Text/Suffix.antt =====
-- `strip_suffix` takes off exactly the suffix.
use Prim.Native.Char.{Char}
use Prim.Native.String.{[], ◌∷◌, ◌++◌, count}
use text.Mathlib.TextLemmas.{nil-append, cons-append, length-cons, length-append}
use mcp_oxide.Prelude.{
  String, some, false, ◌≡◌, ◌↔◌, ◌==◌, eq_iff, eq_refl, refl, ap, arith, inl, inr, Bool-cases,
  Option-cases,
}
use mcp_oxide.Text.{strip_suffix}

strip_suffix_sound : (t s p : String) → strip_suffix t s ≡ some p → s ≡ p ++ t
unfolding strip_suffix
strip_suffix_sound t [] p h =
    let whole : t ≡ [] = (eq_iff t []).0 (ground arith) in
    let empty : [] ≡ p = ground arith in rw (← empty, whole, nil-append)
strip_suffix_sound t (c ∷ s) p h = elim (Bool-cases ((c ∷ s) == t)) [
  | inl same ↦
      let empty : [] ≡ p = ground arith in rw (← empty, nil-append) ((eq_iff (c ∷ s) t).0 same)
  | inr longer ↦ elim (Option-cases (strip_suffix t s)) [
    | inl missing ↦ ground arith
    | inr (q, e) ↦
        let shorter : c ∷ q ≡ p = ground arith in
        rw (← shorter, cons-append) (ap (λ r. c ∷ r) (strip_suffix_sound t s q e))
  ]
]

longer-ne : (c : Char) (p t : String) → ((c ∷ (p ++ t)) == t) ≡ false
longer-ne c p t = elim (Bool-cases ((c ∷ (p ++ t)) == t)) [
  | inl same ↦ absurd (
      omega (
        arith,
        ap count ((eq_iff (c ∷ (p ++ t)) t).0 same),
        length-cons c (p ++ t),
        length-append p t,
      ))
  | inr other ↦ other
]

strip_suffix_self : (t : String) → strip_suffix t t ≡ some []
unfolding strip_suffix
strip_suffix_self [] = refl
strip_suffix_self (c ∷ s) = rw (eq_refl (c ∷ s))

strip_suffix_step :
    (c : Char) (p t : String)
    → strip_suffix t (p ++ t) ≡ some p
    → strip_suffix t (c ∷ (p ++ t)) ≡ some (c ∷ p)
unfolding strip_suffix
strip_suffix_step c p t ih = ground (arith, longer-ne c p t)

pub strip_suffix-append : (p t : String) → strip_suffix t (p ++ t) ≡ some p
strip_suffix-append [] t = rw nil-append (strip_suffix_self t)
strip_suffix-append (c ∷ p) t = rw cons-append (strip_suffix_step c p t (strip_suffix-append p t))

-- `strip_suffix` answers with `p` exactly for `p` followed by the suffix.
pub strip_suffix_iff : (t s p : String) → (strip_suffix t s ≡ some p) ↔ (s ≡ p ++ t)
strip_suffix_iff t s p = (strip_suffix_sound t s p, λ e. rw e (strip_suffix-append p t))
