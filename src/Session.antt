-- ===== src/Session.antt =====
-- crates/session/src/lib.rs: the store that binds the sessions of clients to backends. Its map is
-- the list of its entries, with one of each key; an instant is a number of nanoseconds, and the
-- instant that a call reads from the clock is its argument.
pub mod History
use mcp_oxide.Prelude.{
  ℕ, ◌+◌, String, Bool, true, ◌&&◌, not, Option, none, some, List, [], ◌∷◌, keep, ◌==◌, ltb,
  if◌then◌else◌,
}
use mcp_oxide.Core.Error.{Error, Result, ok}
use mcp_oxide.Core.Model.{SessionId, BackendId}
use mcp_oxide.Core.Providers.{SessionStore}

pub record Entry : Type 0 where
  pub backend : BackendId
  pub expires_at : ℕ

abbrev pub Key : Type 0
Key = String × String

abbrev pub key_eq : Key → Key → Bool
key_eq (s, a) (t, b) = s == t && a == b

abbrev pub Sessions : Type 0
Sessions = List (Key × Entry)

-- `HashMap::get` and `HashMap::insert`
unfoldable pub get : Key → Sessions → Option Entry
get key [] = none
get key (entry ∷ rest) = if key_eq entry.0 key then some entry.1 else get key rest

unfoldable pub insert : Key → Entry → Sessions → Sessions
insert key e sessions = (key, e) ∷ keep (λ entry. not (key_eq entry.0 key)) sessions

abbrev alive : ℕ → Option Entry → Option BackendId
alive now none = none
alive now (some e) = if ltb now e.expires_at then some e.backend else none

unfoldable pub resolve : SessionId → String → (now : ℕ) → Sessions → Result Error (Option BackendId)
resolve session_id adapter now sessions =
    ok (alive now (get (session_id.session, adapter) sessions))

unfoldable pub bind :
    SessionId → String → BackendId → (ttl now : ℕ) → Sessions → Result Error (Unit {0}) × Sessions
bind session_id adapter backend ttl now sessions = (
  ok tt,
  insert (session_id.session, adapter) (record { backend = backend; expires_at = now + ttl })
      sessions,
)

unfoldable pub drop_session : SessionId → Sessions → Result Error (Unit {0}) × Sessions
drop_session session_id sessions =
    (ok tt, keep (λ entry. not (entry.0.0 == session_id.session)) sessions)

abbrev pub in_memory_sessions : SessionStore Sessions
in_memory_sessions = record { resolve = resolve; bind = bind; drop_session = drop_session }
