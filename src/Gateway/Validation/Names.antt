-- ===== src/Gateway/Validation/Names.antt =====
-- The names that `validate_resource_name` of crates/gateway/src/routes/validation.rs accepts.
use Prim.Native.Char.{Char, code, len_utf8, len_utf8_def, width}
use Prim.Native.Nat.{compare}
use Prim.Native.String.{[], ◌∷◌, ◌++◌, count}
use text.Mathlib.TextLemmas.{nil-append, cons-append, length-nil, length-cons, length-append}
use mcp_oxide.Prelude.{
  ◌≤◌, ◌<◌, String, true, false, not, ◌≡◌, ◌↔◌, ◌⊎◌, ◌∙◌, sym, ap, refl, inl, arith,
}
use mcp_oxide.Core.Error.{ok}
use mcp_oxide.Text.{byte_len, contains}
use mcp_oxide.Gateway.Validation.{validate_resource_name, is_edge, is_inner, last}

-- [a-z0-9]
abbrev pub IsAlnum : Char → Type 0
IsAlnum c = (b'a' ≤ code c) × (code c ≤ b'z') ⊎ (b'0' ≤ code c) × (code c ≤ b'9')

-- [a-z0-9-]
abbrev pub IsLabelChar : Char → Type 0
IsLabelChar c = IsAlnum c ⊎ (code c ≡ b'-')

abbrev pub AllChars : (Char → Type 0) → String → Type 0
AllChars P [] = Unit
AllChars P (c ∷ s) = P c × AllChars P s

-- the expression ^[a-z0-9]([a-z0-9-]{0,61}[a-z0-9])?$
pub data IsDnsLabel (name : String) : Type 0 where
  single : (c : Char) → name ≡ c ∷ [] → IsAlnum c → IsDnsLabel name
  longer :
      (c : Char) (middle : String) (d : Char)
      → name ≡ c ∷ (middle ++ (d ∷ []))
      → IsAlnum c
      → AllChars IsLabelChar middle
      → count middle ≤ 61
      → IsAlnum d
      → IsDnsLabel name

is_edge_iff : (c : Char) → (is_edge c ≡ true) ↔ IsAlnum c
is_edge_iff c = (λ h. ground arith, λ h. ground arith)

is_inner_iff : (c : Char) → (is_inner c ≡ true) ↔ IsLabelChar c
is_inner_iff c = (λ h. ground arith, λ h. ground arith)

inner-of-edge : (c : Char) → IsAlnum c → IsLabelChar c
inner-of-edge c h = inl h

contains-AllChars :
    (s : String) → contains (λ b. not (is_inner b)) s ≡ false → AllChars IsLabelChar s
unfolding contains
contains-AllChars [] h = tt
contains-AllChars (c ∷ s) h = (ground (arith, is_inner_iff c), contains-AllChars s (ground arith))

AllChars-contains :
    (s : String) → AllChars IsLabelChar s → contains (λ b. not (is_inner b)) s ≡ false
unfolding contains
AllChars-contains [] h = refl
AllChars-contains (c ∷ s) (q, h) = ground (arith, is_inner_iff c, AllChars-contains s h)

len_utf8_ascii : (c : Char) → code c < 128 → len_utf8 c ≡ 1
len_utf8_ascii c h =
    let by_width : len_utf8 c
        ≡ width (compare (code c) 128) (compare (code c) 2048) (compare (code c) 65536) =
      λ i. len_utf8_def c i in
    by_width ∙ ground arith

-- a label is ASCII, so its bytes are its characters
byte_len-count : (s : String) → AllChars IsLabelChar s → byte_len s ≡ count s
unfolding byte_len
byte_len-count [] h = sym length-nil
byte_len-count (c ∷ s) (q, h) =
    omega (arith, length-cons c s, byte_len-count s h, len_utf8_ascii c (ground arith))

AllChars-append :
    (s t : String) → AllChars IsLabelChar s → AllChars IsLabelChar t → AllChars IsLabelChar (s ++ t)
AllChars-append [] t _ k = rw nil-append k
AllChars-append (c ∷ s) t (q, h) k = rw cons-append (q, AllChars-append s t h k)

last-append : (c : Char) (s : String) (d : Char) → last c (s ++ (d ∷ [])) ≡ d
last-append c [] d = rw nil-append
last-append c (e ∷ s) d = rw cons-append (last-append e s d)

-- a text of two or more characters, with its last one split off
split_last :
    (c d : Char) (s : String)
    → AllChars IsLabelChar (d ∷ s)
    → (middle : String) × (d ∷ s ≡ middle ++ (last d s ∷ [])) × AllChars IsLabelChar middle
split_last c d [] h = ([], sym (nil-append _), tt)
split_last c d (e ∷ s) (q, h) =
    let (middle, same, inner) = split_last d e s h in
    (d ∷ middle, ap (λ t. d ∷ t) same ∙ sym (cons-append d middle _), (q, inner))

-- what the four tests leave
record Accepted (c : Char) (s : String) : Type 0 where
  short : byte_len (c ∷ s) ≤ 63
  starts : IsAlnum c
  ends : IsAlnum (last c s)
  inner : AllChars IsLabelChar (c ∷ s)

accepted : (c : Char) (s : String) → validate_resource_name (c ∷ s) ≡ ok tt → Accepted c s
unfolding validate_resource_name
accepted c s h = record {
  short = ground arith;
  starts = ground (arith, is_edge_iff c);
  ends = ground (arith, is_edge_iff (last c s));
  inner = contains-AllChars (c ∷ s) (ground arith);
}

accept : (c : Char) (s : String) → Accepted c s → validate_resource_name (c ∷ s) ≡ ok tt
unfolding validate_resource_name
accept c s a = ground (
  arith,
  a.short,
  is_edge_iff c,
  is_edge_iff (last c s),
  a.starts,
  a.ends,
  AllChars-contains (c ∷ s) a.inner,
)

label_of_valid : (name : String) → validate_resource_name name ≡ ok tt → IsDnsLabel name
label_of_valid [] h = unfold validate_resource_name in cc
label_of_valid (c ∷ []) h = single c refl (accepted c [] h).starts
label_of_valid (c ∷ (d ∷ s)) h =
    let a = accepted c (d ∷ s) h in
    let (middle, same, inner) = split_last c d s a.inner.1 in
    longer c middle (last d s) (ap (λ t. c ∷ t) same) a.starts inner
      (omega (
        arith,
        a.short,
        byte_len-count (c ∷ (d ∷ s)) a.inner,
        length-cons c (d ∷ s),
        ap count same,
        length-append middle (last d s ∷ []),
        length-cons (last d s) [],
      ))
      a.ends

valid_of_label : (name : String) → IsDnsLabel name → validate_resource_name name ≡ ok tt
valid_of_label name (single c e a) =
    let chars : AllChars IsLabelChar (c ∷ []) = (inl a, tt) in
    rw e (
      accept c [] (record {
        short = omega (arith, byte_len-count (c ∷ []) chars, length-cons c [], length-nil);
        starts = a;
        ends = a;
        inner = chars;
      }))
valid_of_label name (longer c middle d e a inner fits b) =
    let chars : AllChars IsLabelChar (c ∷ (middle ++ (d ∷ []))) =
      (inl a, AllChars-append middle (d ∷ []) inner (inl b, tt)) in
    rw e (
      accept c (middle ++ (d ∷ [])) (record {
        short = omega (
          arith,
          byte_len-count (c ∷ (middle ++ (d ∷ []))) chars,
          length-cons c (middle ++ (d ∷ [])),
          length-append middle (d ∷ []),
          length-cons d [],
          length-nil,
        );
        starts = a;
        ends = rw (last-append c middle d) b;
        inner = chars;
      }))

-- A name passes `validate_resource_name` exactly when it matches the expression
-- ^[a-z0-9]([a-z0-9-]{0,61}[a-z0-9])?$ of its documentation.
pub validate_resource_name_iff :
    (name : String) → (validate_resource_name name ≡ ok tt) ↔ IsDnsLabel name
validate_resource_name_iff name = (label_of_valid name, valid_of_label name)
