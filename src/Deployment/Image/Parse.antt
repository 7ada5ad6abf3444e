-- ===== src/Deployment/Image/Parse.antt =====
-- Image references, read and printed.
pub mod Tags
use Prim.Native.Char.{Char, code}
use Prim.Native.String.{[], ◌∷◌, ◌++◌}
use text.Mathlib.TextLemmas.{nil-append, append-nil, cons-append, append_assoc, cons-ne-nil}
use mcp_oxide.Prelude.{
  String, Bool, true, false, not, Option, none, some, ◌≡◌, ◌≢◌, ◌↔◌, ◌⊎◌, inl, inr, refl, ap, sym,
  subst, ◌∙◌, arith, Bool-cases, Option-cases, if◌then◌else◌,
}
use mcp_oxide.Text.{is_empty, contains, is_char, rsplit_once}
use mcp_oxide.Text.Trim.{Free, Free-append}
use mcp_oxide.Text.Last.{
  is_sep, rsplit_once-Free, Free-rsplit_once, rsplit_once-append, rsplit_once_sound, Free-left,
  Free-right,
}
use mcp_oxide.Core.Error.{Error, Result, ok, err, Result-cases}
use mcp_oxide.Gateway.Validation.EnvVars.{contains-Free, Free-contains}
use mcp_oxide.Deployment.Image.{ImageRef, at_sign, colon, split_digest, split_tag, parse}
use mcp_oxide.Deployment.Image.Parse.Tags.{TagFits, tag_text, is_empty_iff, split_tag_iff}

abbrev pub digest_text : Option String → String
digest_text none = ""
digest_text (some d) = at_sign ∷ d

-- `name[:tag][@digest]`
abbrev pub print : ImageRef → String
print r = (r.name ++ tag_text r.tag) ++ digest_text r.digest

-- A digest holds a colon and no `@`; where there is none, what stands before it holds no `@`.
abbrev pub DigestFits : Option String → String → Type 0
DigestFits none remainder = Free (is_sep at_sign) remainder
DigestFits (some d) remainder = Free (is_sep at_sign) d × (¬ (Free (is_sep colon) d))

has_colon_iff : (d : String) → (contains (is_char b':') d ≡ true) ↔ (¬ (Free (is_sep colon) d))
has_colon_iff d = (
  λ h free. absurd (ground (arith, Free-contains (is_char b':') d free)),
  λ h. elim (Bool-cases (contains (is_char b':') d)) [
    | inl e ↦ e
    | inr e ↦ absurd (h (contains-Free (is_char b':') d e))
  ],
)

split_digest_sound :
    (s remainder : String) (digest : Option String)
    → split_digest s ≡ ok (remainder, digest)
    → (s ≡ remainder ++ digest_text digest) × DigestFits digest remainder
unfolding split_digest
split_digest_sound s remainder digest h = elim (Option-cases (rsplit_once at_sign s)) [
  | inl e ↦
      let r : s ≡ remainder = ground arith in
      let d : none ≡ digest = ground arith in
      (rw (← d, ← r, append-nil) refl, rw (← d, ← r) (Free-rsplit_once at_sign s e))
  | inr ((a, t), e) ↦
      let (split, free) = rsplit_once_sound at_sign s a t e in
      let r : a ≡ remainder = ground arith in
      let d : some t ≡ digest = ground arith in
      let colons : contains (is_char b':') t ≡ true = ground arith in
      (rw (← d, ← r) split, rw (← d) (free, (has_colon_iff t).0 colons))
]

split_digest-print :
    (remainder : String) (digest : Option String)
    → DigestFits digest remainder
    → split_digest (remainder ++ digest_text digest) ≡ ok (remainder, digest)
unfolding split_digest
split_digest-print remainder none h =
    rw (append-nil) (ground (arith, rsplit_once-Free at_sign remainder h))
split_digest-print remainder (some d) (free, colons) =
    let e : rsplit_once at_sign (remainder ++ (at_sign ∷ d)) ≡ some (remainder, d) =
      rsplit_once-append at_sign remainder d free in
    let c : contains (is_char b':') d ≡ true = (has_colon_iff d).1 colons in
    let full : is_empty d ≡ false = (is_empty_iff d).1 (λ n. colons (rw n tt)) in
    rw (split_digest, e, full, c) refl

split_digest_iff :
    (s remainder : String) (digest : Option String)
    → (split_digest s ≡ ok (remainder, digest))
      ↔ ((s ≡ remainder ++ digest_text digest) × DigestFits digest remainder)
split_digest_iff s remainder digest =
    (split_digest_sound s remainder digest, λ (e, h). rw e (split_digest-print remainder digest h))

-- the parts that a reference has when it is printed unambiguously
pub record IsProper (r : ImageRef) : Type 0 where
  pub named : r.name ≢ ""
  pub tag : TagFits r.tag r.name
  pub digest : DigestFits r.digest (r.name ++ tag_text r.tag)

parse_sound : (s : String) (r : ImageRef) → parse s ≡ ok r → (s ≡ print r) × IsProper r
unfolding parse
parse_sound s r h = elim (Result-cases (split_digest s)) [
  | inl (e, failed) ↦ absurd (ground arith)
  | inr ((rem, digest), e) ↦ elim (Result-cases (split_tag rem)) [
    | inl (e', failed) ↦ absurd (ground arith)
    | inr ((name, tag), e') ↦
        let filled : is_empty name ≡ false = ground arith in
        let r' : ImageRef = record { name = name; tag = tag; digest = digest } in
        let same : r' ≡ r = ground arith in
        let (split, digest_fits) = (split_digest_iff s rem digest).0 e in
        let (split', tag_fits) = (split_tag_iff rem name tag).0 e' in
        subst (λ (x : ImageRef). (s ≡ print x) × IsProper x) same
          (
            split ∙ ap (λ x. x ++ digest_text digest) split',
            record {
              named = (is_empty_iff name).0 filled;
              tag = tag_fits;
              digest = subst (DigestFits digest) split' digest_fits;
            },
          )
  ]
]

is_empty-append : (s t : String) → is_empty s ≡ false → is_empty (s ++ t) ≡ false
is_empty-append [] t h = absurd (ground arith)
is_empty-append (c ∷ s) t h = rw cons-append refl

parse-print : (r : ImageRef) → IsProper r → parse (print r) ≡ ok r
unfolding parse
parse-print r p =
    let e = (split_digest_iff (print r) (r.name ++ tag_text r.tag) r.digest).1 (refl, p.digest) in
    let e' = (split_tag_iff (r.name ++ tag_text r.tag) r.name r.tag).1 (refl, p.tag) in
    let filled = (is_empty_iff r.name).1 p.named in
    let whole : is_empty (print r) ≡ false =
      is_empty-append (r.name ++ tag_text r.tag) (digest_text r.digest)
        (is_empty-append r.name (tag_text r.tag) filled) in
    rw (parse, whole, e, e', filled) refl

-- `ImageRef::parse` reads a text to a reference exactly when the text is that reference printed and
-- the reference is proper: its name is not empty, its tag holds no colon and no slash, and without
-- a tag no colon stands behind the name's last slash; a digest holds a colon and no `@`, and
-- without a digest there is no `@`.
pub parse_iff : (s : String) (r : ImageRef) → (parse s ≡ ok r) ↔ ((s ≡ print r) × IsProper r)
parse_iff s r = (parse_sound s r, λ (e, p). rw e (parse-print r p))
