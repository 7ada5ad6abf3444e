-- ===== src/Gateway/ControlPlane/Helpers/ETag.antt =====
-- Entity tags of crates/gateway/src/routes/control_plane_helpers.rs, written and read.
use Prim.Native.Char.{Char, code}
use Prim.Native.String.{◌++◌}
use text.Mathlib.TextLemmas.{nil-append, cons-append, append_assoc}
use mcp_oxide.Prelude.{
  ℕ, ◌<◌, ◌^◌, String, Bool, not, ◌&&◌, leb, true, some, ◌≡◌, refl, arith, is_some,
}
use mcp_oxide.Text.{trim, trim_start, trim_matches, is_whitespace, is_char, strip_prefix}
use mcp_oxide.Text.Trim.{Free, Free-append, trim_matches-Free, trim_start-append, trim_end-append}
use mcp_oxide.Text.Prefix.{strip_prefix-append}
use mcp_oxide.Text.Decimal.{to_decimal}
use mcp_oxide.Text.Decimal.RoundTrip.{
  Free-to_decimal, Free-digit, to_decimal-ne-nil, parse_u64-to_decimal,
}
use mcp_oxide.Core.Error.{ok}
use mcp_oxide.Gateway.Handler.{Host, HeaderMap}
use mcp_oxide.Gateway.ControlPlane.Helpers.{etag_text, etag_for, if_match_revision, parse_if_match}

-- the characters from the space to the tilde
abbrev pub is_visible : Char → Bool
is_visible c = leb 32 (code c) && leb (code c) 126

-- What the `http` crate documents of `HeaderValue`: a text of visible ASCII characters becomes a
-- header value, which `to_str` gives back.
pub record KeepsText {V : Type 0} (host : Host V) : Type 0 where
  pub keeps :
      (s : String)
      → Free (λ c. not (is_visible c)) s
      → (v : V) × (host.from_str s ≡ some v) × (host.to_str v ≡ some s)

Free-etag_text :
    (p : Char → Bool) → Free p "W/\"" → Free p "0123456789" → (n : ℕ) → Free p (etag_text n)
unfolding etag_text
Free-etag_text p h k n =
    Free-append p "W/\"" _ h
      (Free-append p (to_decimal n) "\"" (Free-to_decimal p (Free-digit p k) n) (h.1.1.0, tt))

-- between the quotes stand the digits
unquote : (n : ℕ) → trim_matches (is_char b'"') ("\"" ++ (to_decimal n ++ "\"")) ≡ to_decimal n
unfolding trim_matches
unquote n =
    let free : Free (is_char b'"') (to_decimal n) =
      Free-to_decimal (is_char b'"') (Free-digit (is_char b'"') (ground arith)) n in
    rw (cons-append, nil-append)
      (unfold trim_start in
        rw (trim_start-append (is_char b'"') (to_decimal n) "\"" (to_decimal-ne-nil n) free)
          (trim_end-append (is_char b'"') (to_decimal n) _ free refl))

trim-etag_text : (n : ℕ) → trim (etag_text n) ≡ etag_text n
unfolding trim
trim-etag_text n =
    trim_matches-Free is_whitespace (etag_text n)
      (Free-etag_text is_whitespace (ground arith) (ground arith) n)

strip_prefix-etag_text :
    (n : ℕ) → strip_prefix "W/" (etag_text n) ≡ some ("\"" ++ (to_decimal n ++ "\""))
unfolding etag_text
strip_prefix-etag_text n =
    rw (append_assoc "W/" "\"" (to_decimal n ++ "\""))
      (strip_prefix-append "W/" ("\"" ++ (to_decimal n ++ "\"")))

if_match_revision-etag_text : (n : ℕ) → n < 2 ^ 64 → if_match_revision (etag_text n) ≡ some n
unfolding if_match_revision
if_match_revision-etag_text n h =
    rw (trim-etag_text n, strip_prefix-etag_text n, unquote n) (parse_u64-to_decimal n h)

-- For every revision below 2^64, `etag_for` does not panic, and a request that sends its value
-- as `If-Match` is read back to the same revision, provided that header values keep visible text.
pub parse_if_match-etag_for :
    {V : Type 0} (host : Host V) (headers : HeaderMap V) (revision : ℕ)
    → KeepsText host
    → revision < 2 ^ 64
    → headers.if_match ≡ etag_for host revision
    → (is_some (etag_for host revision) ≡ true) × (parse_if_match host headers ≡ ok (some revision))
unfolding etag_for parse_if_match
parse_if_match-etag_for host headers revision k h sent =
    let (v, made, kept) =
      k.keeps (etag_text revision) (Free-etag_text _ (ground arith) (ground arith) revision) in
    (rw made refl, rw (sent, made, kept, if_match_revision-etag_text revision h))
