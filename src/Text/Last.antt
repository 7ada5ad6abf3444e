-- ===== src/Text/Last.antt =====
-- `rsplit_once` splits at the last occurrence.
use Prim.Native.Char.{Char, code}
use Prim.Native.String.{[], ◌∷◌, ◌++◌}
use text.Mathlib.TextEquality.{Char-path}
use text.Mathlib.TextLemmas.{nil-append, cons-append}
use mcp_oxide.Prelude.{
  String, Bool, true, none, some, ◌≡◌, inl, inr, refl, ap, arith, nat_eq, nat_eq_iff, Bool-cases,
  Option-cases,
}
use mcp_oxide.Text.{rsplit_once}
use mcp_oxide.Text.Trim.{Free}

abbrev pub is_sep : Char → Char → Bool
is_sep sep c = nat_eq (code c) (code sep)

module _ (sep : Char) where
  pub rsplit_once-Free : (s : String) → Free (is_sep sep) s → rsplit_once sep s ≡ none
  unfolding rsplit_once
  rsplit_once-Free [] h = refl
  rsplit_once-Free (c ∷ s) (q, h) = ground (arith, rsplit_once-Free s h)

  pub Free-rsplit_once : (s : String) → rsplit_once sep s ≡ none → Free (is_sep sep) s
  unfolding rsplit_once
  Free-rsplit_once [] h = tt
  Free-rsplit_once (c ∷ s) h = elim (Option-cases (rsplit_once sep s)) [
    | inl e ↦ (ground arith, Free-rsplit_once s e)
    | inr ((a, b), e) ↦ absurd (ground arith)
  ]

  self_sep : is_sep sep sep ≡ true
  self_sep = (nat_eq_iff (code sep) (code sep)).1 refl

  pub rsplit_once-append :
      (a b : String) → Free (is_sep sep) b → rsplit_once sep (a ++ (sep ∷ b)) ≡ some (a, b)
  unfolding rsplit_once
  rsplit_once-append [] b h = rw (nil-append) (ground (arith, rsplit_once-Free b h, self_sep))
  rsplit_once-append (c ∷ a) b h = rw (cons-append, rsplit_once-append a b h) refl

  pub rsplit_once_sound :
      (s a b : String)
      → rsplit_once sep s ≡ some (a, b)
      → (s ≡ a ++ (sep ∷ b)) × Free (is_sep sep) b
  unfolding rsplit_once
  rsplit_once_sound [] a b h = absurd (ground arith)
  rsplit_once_sound (c ∷ s) a b h = elim (Option-cases (rsplit_once sep s)) [
    | inr ((a', b'), e) ↦
        let (split, free) = rsplit_once_sound s a' b' e in
        let head : c ∷ a' ≡ a = ground arith in
        let tail : b' ≡ b = ground arith in
        (rw (← head, ← tail, cons-append) (ap (λ r. c ∷ r) split), rw (← tail) free)
    | inl e ↦ elim (Bool-cases (is_sep sep c)) [
      | inr other ↦ absurd (ground arith)
      | inl here ↦
          let head : [] ≡ a = ground arith in
          let tail : s ≡ b = ground arith in
          (
            rw (← head, nil-append, ← tail)
                (ap (λ d. d ∷ s) (Char-path c sep ((nat_eq_iff (code c) (code sep)).0 here))),
            rw (← tail) (Free-rsplit_once s e),
          )
    ]
  ]

  -- what holds no separator holds none in its parts
  pub Free-left : (s t : String) → Free (is_sep sep) (s ++ t) → Free (is_sep sep) s
  Free-left [] t h = tt
  Free-left (c ∷ s) t h =
      let k : Free (is_sep sep) (c ∷ (s ++ t)) = rw cons-append at h in (k.0, Free-left s t k.1)

  pub Free-right : (s t : String) → Free (is_sep sep) (s ++ t) → Free (is_sep sep) t
  Free-right [] t h = rw nil-append at h
  Free-right (c ∷ s) t h =
      let k : Free (is_sep sep) (c ∷ (s ++ t)) = rw cons-append at h in Free-right s t k.1
