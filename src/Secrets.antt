-- ===== src/Secrets.antt =====
-- crates/secrets/src/lib.rs: secrets from the environment of the process.
use mcp_oxide.Prelude.{String, Option, none, some, [], ◌∷◌}
use mcp_oxide.Text.{format}
use mcp_oxide.Core.Error.{Error, not_found, Result, ok, err}
use mcp_oxide.Core.Providers.{SecretProvider}

-- `std::env::var`, which has no value for a variable that is missing or is not Unicode
abbrev from_var : String → Option String → Result Error String
from_var key (some s) = ok s
from_var key none = err (not_found (format ("env:" ∷ key ∷ [])))

abbrev pub env_secret_provider : (String → Option String) → SecretProvider
env_secret_provider var = record { get = λ lookup. from_var lookup.key (var lookup.key) }
