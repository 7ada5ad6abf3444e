-- ===== src/Deployment/Image/Parse/Tags.antt =====
-- Where a tag begins: at the last colon behind the last slash.
use Prim.Native.String.{[], ◌∷◌, ◌++◌}
use text.Mathlib.TextLemmas.{nil-append, append-nil, cons-append, append_assoc, cons-ne-nil}
use mcp_oxide.Prelude.{
  String, true, false, Option, none, some, ◌≡◌, ◌≢◌, ◌↔◌, ◌⊎◌, inl, inr, refl, ap, sym, subst, ◌∙◌,
  arith, Bool-cases, Option-cases,
}
use mcp_oxide.Text.{is_empty, rsplit_once}
use mcp_oxide.Text.Trim.{Free, Free-append}
use mcp_oxide.Text.Last.{
  is_sep, rsplit_once-Free, Free-rsplit_once, rsplit_once-append, rsplit_once_sound, Free-right,
}
use mcp_oxide.Core.Error.{ok}
use mcp_oxide.Deployment.Image.{colon, slash, at_last_slash, split_tag}

pub is_empty_iff : (s : String) → (is_empty s ≡ false) ↔ (s ≢ "")
is_empty_iff [] = (λ h. cc, λ h. absurd (h refl))
is_empty_iff (c ∷ s) = (λ h. cons-ne-nil c s, λ h. refl)

-- every colon has a slash behind it, as that of a registry's port has
abbrev pub ColonsInPath : String → Type 0
ColonsInPath [] = Unit
ColonsInPath (c ∷ s) = (is_sep colon c ≡ true → ¬ (Free (is_sep slash) s)) × ColonsInPath s

abbrev pub tag_text : Option String → String
tag_text none = ""
tag_text (some t) = colon ∷ t

abbrev pub TagFits : Option String → String → Type 0
TagFits none name = ColonsInPath name
TagFits (some t) name = (t ≢ "") × Free (is_sep colon) t × Free (is_sep slash) t

-- the path of a text is empty or ends with a slash
abbrev IsPath : String → Type 0
IsPath path = (path ≡ "") ⊎ ((a : String) × (path ≡ a ++ "/"))

slash-append : (a base : String) → (a ++ "/") ++ base ≡ a ++ (slash ∷ base)
slash-append a base = rw (append_assoc a "/" base, cons-append, nil-append) refl

at_last_slash_sound :
    (s path base : String)
    → at_last_slash s ≡ (path, base)
    → (s ≡ path ++ base) × Free (is_sep slash) base × IsPath path
unfolding at_last_slash
at_last_slash_sound s path base h = elim (Option-cases (rsplit_once slash s)) [
  | inl e ↦
      let p : "" ≡ path = ap (λ (x : String × String). x.0) (rw (e, at_last_slash) at h) in
      let b : s ≡ base = ap (λ (x : String × String). x.1) (rw (e, at_last_slash) at h) in
      (rw (← p, nil-append) b, rw (← b) (Free-rsplit_once slash s e), inl (sym p))
  | inr ((a, t), e) ↦
      let p : a ++ "/" ≡ path = ap (λ (x : String × String). x.0) (rw (e, at_last_slash) at h) in
      let b : t ≡ base = ap (λ (x : String × String). x.1) (rw (e, at_last_slash) at h) in
      let (split, free) = rsplit_once_sound slash s a t e in
      (rw (← p, ← b) (split ∙ sym (slash-append a t)), rw (← b) free, inr (a, sym p))
]

at_last_slash-append :
    (path base : String)
    → Free (is_sep slash) base
    → IsPath path
    → at_last_slash (path ++ base) ≡ (path, base)
unfolding at_last_slash
at_last_slash-append path base h (inl e) =
    let whole : at_last_slash base ≡ ("", base) =
      rw (at_last_slash, rsplit_once-Free slash base h) refl in
    subst (λ p. at_last_slash (p ++ base) ≡ (p, base)) (sym e)
      (subst (λ s. at_last_slash s ≡ ("", base)) (sym (nil-append base)) whole)
at_last_slash-append path base h (inr (a, e)) =
    subst (λ p. at_last_slash (p ++ base) ≡ (p, base)) (sym e)
      (rw (slash-append a base, at_last_slash, rsplit_once-append slash a base h) refl)

-- a text without a slash has its colons in a path only where it has none
ColonsInPath-base :
    (base : String) → Free (is_sep slash) base → ColonsInPath base → Free (is_sep colon) base
ColonsInPath-base [] h k = tt
ColonsInPath-base (c ∷ base) (q, h) (k, ks) = elim (Bool-cases (is_sep colon c)) [
  | inl here ↦ absurd (k here h)
  | inr other ↦ (other, ColonsInPath-base base h ks)
]

ColonsInPath-right : (path base : String) → ColonsInPath (path ++ base) → ColonsInPath base
ColonsInPath-right [] base h = rw nil-append at h
ColonsInPath-right (c ∷ path) base h =
    let k : ColonsInPath (c ∷ (path ++ base)) = rw cons-append at h in
    ColonsInPath-right path base k.1

Free-ColonsInPath : (base : String) → Free (is_sep colon) base → ColonsInPath base
Free-ColonsInPath [] h = tt
Free-ColonsInPath (c ∷ base) (q, h) = (λ here. absurd (ground arith), Free-ColonsInPath base h)

not-Free-slash : (a base : String) → ¬ (Free (is_sep slash) (a ++ (slash ∷ base)))
not-Free-slash a base h =
    let k : Free (is_sep slash) (slash ∷ base) = Free-right slash a (slash ∷ base) h in
    absurd (ground arith)

ColonsInPath-slash :
    (a base : String) → Free (is_sep colon) base → ColonsInPath (a ++ (slash ∷ base))
ColonsInPath-slash [] base h = rw nil-append (Free-ColonsInPath (slash ∷ base) (refl, h))
ColonsInPath-slash (c ∷ a) base h =
    rw cons-append (λ here. not-Free-slash a base, ColonsInPath-slash a base h)

IsPath-ColonsInPath :
    (path base : String) → IsPath path → Free (is_sep colon) base → ColonsInPath (path ++ base)
IsPath-ColonsInPath path base (inl e) h = rw (e, nil-append) (Free-ColonsInPath base h)
IsPath-ColonsInPath path base (inr (a, e)) h =
    rw (e, slash-append a base) (ColonsInPath-slash a base h)

split_tag_sound :
    (rem name : String) (tag : Option String)
    → split_tag rem ≡ ok (name, tag)
    → (rem ≡ name ++ tag_text tag) × TagFits tag name
unfolding split_tag
split_tag_sound rem name tag h =
    let path = (at_last_slash rem).0 in
    let base = (at_last_slash rem).1 in
    let (whole, free, is_path) = at_last_slash_sound rem path base refl in
    elim (Option-cases (rsplit_once colon base)) [
      | inl e ↦
          let n : rem ≡ name = ground arith in
          let t : none ≡ tag = ground arith in
          (
            rw (← t, ← n, append-nil) refl,
            rw (← t, ← n, whole)
                (IsPath-ColonsInPath path base is_path (Free-rsplit_once colon base e)),
          )
      | inr ((b, t'), e) ↦
          let (split, no_colon) = rsplit_once_sound colon base b t' e in
          let n : path ++ b ≡ name = ground arith in
          let t : some t' ≡ tag = ground arith in
          let filled : is_empty t' ≡ false = ground arith in
          (
            rw (← t, ← n)
                (whole ∙ ap (λ x. path ++ x) split ∙ sym (append_assoc path b (colon ∷ t'))),
            rw (← t) (
              (is_empty_iff t').0 filled,
              no_colon,
              (Free-right slash b (colon ∷ t') (rw split at free)).1,
            ),
          )
    ]

split_tag-print :
    (name : String) (tag : Option String)
    → TagFits tag name
    → split_tag (name ++ tag_text tag) ≡ ok (name, tag)
unfolding split_tag
split_tag-print name none h =
    let path = (at_last_slash name).0 in
    let base = (at_last_slash name).1 in
    let (whole, free, is_path) = at_last_slash_sound name path base refl in
    let no_colon : Free (is_sep colon) base =
      ColonsInPath-base base free (ColonsInPath-right path base (rw whole at h)) in
    let e : rsplit_once colon base ≡ none = rsplit_once-Free colon base no_colon in
    rw append-nil (ground arith)
split_tag-print name (some t) (filled, no_colon, no_slash) =
    let path = (at_last_slash name).0 in
    let base = (at_last_slash name).1 in
    let (whole, free, is_path) = at_last_slash_sound name path base refl in
    let last : at_last_slash (name ++ (colon ∷ t)) ≡ (path, base ++ (colon ∷ t)) =
      ap at_last_slash (ap (λ x. x ++ (colon ∷ t)) whole ∙ append_assoc path base (colon ∷ t))
      ∙ at_last_slash-append path (base ++ (colon ∷ t))
          (Free-append (is_sep slash) base (colon ∷ t) free (refl, no_slash)) is_path in
    let e : rsplit_once colon (base ++ (colon ∷ t)) ≡ some (base, t) =
      rsplit_once-append colon base t no_colon in
    let full : is_empty t ≡ false = (is_empty_iff t).1 filled in
    let back : path ++ base ≡ name = sym whole in rw (split_tag, last, e, full, last, back) refl

pub split_tag_iff :
    (rem name : String) (tag : Option String)
    → (split_tag rem ≡ ok (name, tag)) ↔ ((rem ≡ name ++ tag_text tag) × TagFits tag name)
split_tag_iff rem name tag =
    (split_tag_sound rem name tag, λ (e, h). rw e (split_tag-print name tag h))
