-- ===== src/Gateway/DataPlane/Proxy.antt =====
-- crates/gateway/src/proxy.rs: the headers that are passed on, and one request to an upstream.
-- A header map is the list of its entries, the names in the lower case that the `http` crate keeps
-- them in; a body is of an unknown type `B`, which a stream of bytes becomes without change.
pub mod Headers
use Prim.Native.Char.{Char, code}
use Prim.Native.String.{[], ◌∷◌}
use mcp_oxide.Prelude.{
  ℕ, ◌+◌, String, Bool, true, false, ◌&&◌, ◌||◌, not, Option, none, some, List, [], ◌∷◌, ◌++◌, any,
  keep, leb, nat_eq, ◌==◌, if◌then◌else◌,
}
use mcp_oxide.Text.{starts_with}
use mcp_oxide.Core.Error.{Result, ok, err}

-- `u8::to_ascii_lowercase`, on the number of a character
abbrev pub lower : ℕ → ℕ
lower n = if leb b'A' n && leb n b'Z' then n + 32 else n

-- `str::eq_ignore_ascii_case`
unfoldable pub eq_ignore_ascii_case : String → String → Bool
eq_ignore_ascii_case [] [] = true
eq_ignore_ascii_case (c ∷ s) (d ∷ t) =
    nat_eq (lower (code c)) (lower (code d)) && eq_ignore_ascii_case s t
eq_ignore_ascii_case _ _ = false

abbrev pub hop_by_hop : List String
hop_by_hop =
    "connection" ∷ "proxy-connection" ∷ "keep-alive" ∷ "transfer-encoding" ∷ "te" ∷ "trailer"
    ∷ "upgrade" ∷ "host" ∷ "content-length" ∷ []

unfoldable pub is_hop_by_hop : String → Bool
is_hop_by_hop k = any (λ h. eq_ignore_ascii_case k h) hop_by_hop

module _ {V : Type 0} where
  -- `HeaderMap::get`: the first value of a name
  unfoldable pub header : String → List (String × V) → Option V
  header k [] = none
  header k (entry ∷ rest) = if entry.0 == k then some entry.1 else header k rest

  -- `HeaderMap::insert`: all values of the name are replaced by one
  unfoldable pub insert_header : String → V → List (String × V) → List (String × V)
  insert_header k v headers = keep (λ entry. not (entry.0 == k)) headers ++ ((k, v) ∷ [])

  -- the loop of `forwardable_headers`, with its two `continue`s
  unfoldable pub forwardable_headers : List (String × V) → List (String × V)
  forwardable_headers [] = []
  forwardable_headers (entry ∷ src) =
      let rest = forwardable_headers src in
      if is_hop_by_hop entry.0
      then rest
      else if entry.0 == "authorization"
      then rest
      else entry ∷ rest

pub data ProxyError : Type 0 where
  unavailable timeout : String → ProxyError

-- what `reqwest` comes back with: the upstream's answer, or an error with its text
pub data Sent (V B : Type 0) : Type 0 where
  replied : (status : ℕ) (headers : List (String × V)) (body : B) → Sent V B
  send_error : (is_timeout : Bool) (text : String) → Sent V B

-- The calls of other crates: the request itself and the milliseconds that it takes, the
-- conversions of a header from one crate's type to the other's, the text of a header value and the
-- value of a text, and the digest and the JSON of a body.
pub record Wire (V B : Type 0) : Type 0 where
  pub post : String → List (String × V) → B → Sent V B × ℕ
  pub convert : String × V → Option (String × V)
  pub to_str : V → Option String
  pub from_static : String → V
  pub sha256_hex : B → String

pub record ProxyOutcome : Type 0 where
  pub status : ℕ
  pub latency_ms : ℕ
  pub content_type : Option String

pub record ProxyResponse (V B : Type 0) : Type 0 where
  pub status : ℕ
  pub headers : List (String × V)
  pub body : B

-- `classify`
unfoldable pub classify : Bool → String → ProxyError
classify true text = timeout text
classify false text = unavailable text

-- `StatusCode::from_u16(…).unwrap_or(BAD_GATEWAY)`
abbrev pub status_of : ℕ → ℕ
status_of n = if leb 100 n && leb n 999 then n else 502

module _ {V B : Type 0} (wire : Wire V B) where
  abbrev onto_converted : Option (String × V) → List (String × V) → List (String × V)
  onto_converted none rest = rest
  onto_converted (some entry) rest = entry ∷ rest

  unfoldable pub to_reqwest_headers : List (String × V) → List (String × V)
  to_reqwest_headers [] = []
  to_reqwest_headers (entry ∷ src) = onto_converted (wire.convert entry) (to_reqwest_headers src)

  -- the loop over the upstream's headers
  unfoldable pub returned_headers : List (String × V) → List (String × V)
  returned_headers [] = []
  returned_headers (entry ∷ src) =
      let rest = returned_headers src in
      if is_hop_by_hop entry.0 then rest else onto_converted (wire.convert entry) rest

  abbrev text_of : Option V → Option String
  text_of none = none
  text_of (some v) = wire.to_str v

  unfoldable pub content_type_of : List (String × V) → Option String
  content_type_of headers = text_of (header "content-type" headers)

  abbrev is_event_stream : Option String → Bool
  is_event_stream none = false
  is_event_stream (some ct) = starts_with ct "text/event-stream"

  -- the two headers that keep intermediaries from buffering a stream of events
  unfoldable pub streaming_headers : Option String → List (String × V) → List (String × V)
  streaming_headers content_type headers =
      if is_event_stream content_type
      then insert_header "cache-control" (wire.from_static "no-cache")
          (insert_header "x-accel-buffering" (wire.from_static "no") headers)
      else headers

  unfoldable pub proxied : Sent V B × ℕ → Result ProxyError (ProxyResponse V B × ProxyOutcome)
  proxied (send_error is_timeout text, ms) = err (classify is_timeout text)
  proxied (replied status headers body, ms) =
      let content_type = content_type_of headers in
      ok (
        record {
          status = status_of status;
          headers = streaming_headers content_type (returned_headers headers);
          body = body;
        },
        record { status = status_of status; latency_ms = ms; content_type = content_type },
      )

  unfoldable pub forward_post :
      String → List (String × V) → B → Result ProxyError (ProxyResponse V B × ProxyOutcome)
  forward_post upstream headers body =
      proxied (wire.post upstream (to_reqwest_headers headers) body)
