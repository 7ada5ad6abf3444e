-- ===== src/Gateway/Validation.antt =====
-- crates/gateway/src/routes/validation.rs: names of resources and of environment variables.
pub mod Names
pub mod EnvVars
use Prim.Native.Char.{Char}
use Prim.Native.String.{[], ◌∷◌}
use mcp_oxide.Prelude.{
  ℕ, String, Bool, true, false, not, ◌||◌, List, [], ◌∷◌, ◌==◌, ltb, if◌then◌else◌,
}
use mcp_oxide.Core.Error.{Error, invalid_request, Result, ok, err}
use mcp_oxide.Text.{
  format, byte_len, is_empty, is_whitespace, is_char, is_ascii_digit, is_ascii_lowercase, contains,
  starts_with,
}

abbrev pub max_name_len : ℕ
max_name_len = 63

-- The tests on bytes are written on characters: the bytes of a character past ASCII are 128 and
-- more, so they pass none of the tests, as its code does.
abbrev pub is_edge : Char → Bool
is_edge c = is_ascii_lowercase c || is_ascii_digit c

abbrev pub is_inner : Char → Bool
is_inner c = is_ascii_lowercase c || is_ascii_digit c || is_char b'-' c

-- the last character of a text that begins with `c`
abbrev pub last : Char → String → Char
last c [] = c
last c (d ∷ s) = last d s

unfoldable pub validate_resource_name : String → Result Error Unit
validate_resource_name [] = err (invalid_request "name must not be empty")
validate_resource_name (c ∷ s) =
    if ltb max_name_len (byte_len (c ∷ s))
    then err (invalid_request "name must be <= 63 chars")
    else if not (is_edge c)
    then err (invalid_request "name must start with [a-z0-9]")
    else if not (is_edge (last c s))
    then err (invalid_request "name must end with [a-z0-9]")
    else if contains (λ b. not (is_inner b)) (c ∷ s)
    then err (invalid_request "name must match ^[a-z0-9]([a-z0-9-]{0,61}[a-z0-9])?$")
    else ok tt

abbrev pub disallowed_env_prefixes : List String
disallowed_env_prefixes =
    "LD_" ∷ "DYLD_" ∷ "DOCKER_" ∷ "KUBERNETES_" ∷ "AWS_" ∷ "GOOGLE_" ∷ "AZURE_" ∷ "PATH"
    ∷ "PYTHONPATH" ∷ "NODE_OPTIONS" ∷ []

reserved_prefix : String → String → Error
reserved_prefix name prefix =
    invalid_request (format ("env name '" ∷ name ∷ "' uses reserved prefix '" ∷ prefix ∷ "'" ∷ []))

-- the loop over the prefixes
unfoldable pub check_prefixes : String → List String → Result Error Unit
unfolding starts_with reserved_prefix
check_prefixes name [] = ok tt
check_prefixes name (prefix ∷ prefixes) =
    if name == prefix || starts_with name prefix
    then err (reserved_prefix name prefix)
    else check_prefixes name prefixes

unfoldable pub validate_env_var_name : String → Result Error Unit
validate_env_var_name name =
    if is_empty name
    then err (invalid_request "env name must not be empty")
    else if contains (is_char b'=') name
    then err (invalid_request "env name must not contain '='")
    else if contains is_whitespace name
    then err (invalid_request "env name must not contain whitespace")
    else check_prefixes name disallowed_env_prefixes
