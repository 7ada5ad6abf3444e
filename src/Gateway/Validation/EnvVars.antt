-- ===== src/Gateway/Validation/EnvVars.antt =====
-- The names that `validate_env_var_name` of crates/gateway/src/routes/validation.rs accepts.
use Prim.Native.Char.{Char}
use Prim.Native.String
use Prim.Native.String.{[], ◌∷◌}
use text.Mathlib.TextLemmas.{append-nil, cons-ne-nil}
use mcp_oxide.Prelude.{
  String, Bool, false, ◌||◌, List, [], ◌∷◌, All, ◌==◌, eq_iff, ◌≡◌, ◌≢◌, ◌↔◌, sym, refl, arith,
  Bool-cases, inl, inr, ◌∙◌,
}
use mcp_oxide.Core.Error.{ok}
use mcp_oxide.Text.{contains, starts_with, is_char, is_whitespace}
use mcp_oxide.Text.Trim.{Free}
use mcp_oxide.Text.Prefix.{starts_with_iff}
use mcp_oxide.Gateway.Validation.{validate_env_var_name, check_prefixes, disallowed_env_prefixes}

-- no text continues the prefix to the name
abbrev pub Avoids : String → String → Type 0
Avoids name prefix = (rest : String) → name ≢ String.◌++◌ prefix rest

pub record IsPlainEnvName (name : String) : Type 0 where
  pub not_empty : name ≢ ""
  pub no_equals : Free (is_char b'=') name
  pub no_space : Free is_whitespace name
  pub not_reserved : All (Avoids name) disallowed_env_prefixes

pub contains-Free : (p : Char → Bool) (s : String) → contains p s ≡ false → Free p s
unfolding contains
contains-Free p [] h = tt
contains-Free p (c ∷ s) h = (ground arith, contains-Free p s (ground arith))

pub Free-contains : (p : Char → Bool) (s : String) → Free p s → contains p s ≡ false
unfolding contains
Free-contains p [] h = refl
Free-contains p (c ∷ s) (q, h) = ground (arith, Free-contains p s h)

Avoids-of_not : (name prefix : String) → starts_with name prefix ≡ false → Avoids name prefix
Avoids-of_not name prefix h rest e = cc ((starts_with_iff name prefix).1 (rest, e))

not_of_Avoids :
    (name prefix : String)
    → Avoids name prefix
    → (name == prefix || starts_with name prefix) ≡ false
not_of_Avoids name prefix h = elim (Bool-cases (starts_with name prefix)) [
  | inl begins ↦ let (rest, e) = (starts_with_iff name prefix).0 begins in absurd (h rest e)
  | inr not ↦ elim (Bool-cases (name == prefix)) [
    | inl same ↦ absurd (h "" ((eq_iff name prefix).0 same ∙ sym (append-nil prefix)))
    | inr other ↦ rw (other, not)
  ]
]

check_sound :
    (name : String) (prefixes : List String)
    → check_prefixes name prefixes ≡ ok tt
    → All (Avoids name) prefixes
unfolding check_prefixes
check_sound name [] h = tt
check_sound name (prefix ∷ prefixes) h =
    (Avoids-of_not name prefix (ground arith), check_sound name prefixes (ground arith))

check_complete :
    (name : String) (prefixes : List String)
    → All (Avoids name) prefixes
    → check_prefixes name prefixes ≡ ok tt
unfolding check_prefixes
check_complete name [] h = refl
check_complete name (prefix ∷ prefixes) (q, h) =
    rw (not_of_Avoids name prefix q) (check_complete name prefixes h)

plain_of_valid : (name : String) → validate_env_var_name name ≡ ok tt → IsPlainEnvName name
unfolding validate_env_var_name
plain_of_valid [] h = cc
plain_of_valid (c ∷ s) h = record {
  not_empty = cons-ne-nil c s;
  no_equals = contains-Free (is_char b'=') (c ∷ s) (ground arith);
  no_space = contains-Free is_whitespace (c ∷ s) (ground arith);
  not_reserved = check_sound (c ∷ s) disallowed_env_prefixes (ground arith);
}

valid_of_plain : (name : String) → IsPlainEnvName name → validate_env_var_name name ≡ ok tt
unfolding validate_env_var_name
valid_of_plain [] p = absurd (p.not_empty refl)
valid_of_plain (c ∷ s) p = rw (
  Free-contains (is_char b'=') (c ∷ s) p.no_equals,
  Free-contains is_whitespace (c ∷ s) p.no_space,
  check_complete (c ∷ s) disallowed_env_prefixes p.not_reserved,
)

-- A name passes `validate_env_var_name` exactly when it is not empty, holds no '=' and no
-- whitespace, and begins with none of the reserved prefixes.
pub validate_env_var_name_iff :
    (name : String) → (validate_env_var_name name ≡ ok tt) ↔ IsPlainEnvName name
validate_env_var_name_iff name = (plain_of_valid name, valid_of_plain name)
