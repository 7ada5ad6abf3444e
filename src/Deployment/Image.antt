-- ===== src/Deployment/Image.antt =====
-- crates/deployment/src/image_ref.rs: references to OCI images, `name[:tag][@digest]`.
pub mod Parse
use Prim.Native.Char.{Char}
use Prim.Native.String.{◌++◌}
use mcp_oxide.Prelude.{
  String, Bool, true, false, not, Option, none, some, is_some, unwrap_or, if◌then◌else◌,
}
use mcp_oxide.Text.{is_empty, contains, is_char, rsplit_once}
use mcp_oxide.Core.Error.{Error, invalid_request, Result, ok, err}

pub record ImageRef : Type 0 where
  pub name : String
  pub tag : Option String
  pub digest : Option String

abbrev pub at_sign : Char
at_sign = "@"

abbrev pub colon : Char
colon = ":"

abbrev pub slash : Char
slash = "/"

abbrev digest_of : String → String → Result Error (String × Option String)
digest_of head tail =
    if is_empty tail
    then err (invalid_request "image reference ends with '@'")
    else if not (contains (is_char b':') tail)
    then err (invalid_request "image digest must be '<algo>:<hex>'")
    else ok (head, some tail)

-- the remainder and the digest
unfoldable pub split_digest : String → Result Error (String × Option String)
split_digest reference = elim (rsplit_once at_sign reference) [
  | none ↦ ok (reference, none)
  | some (head, tail) ↦ digest_of head tail
]

-- the text up to the last slash, that one included, and the text behind it
unfoldable pub at_last_slash : String → String × String
at_last_slash s = elim (rsplit_once slash s) [
  | none ↦ ("", s)
  | some (head, tail) ↦ (head ++ "/", tail)
]

abbrev tag_of : String → String → Result Error (String × Option String)
tag_of name tag =
    if is_empty tag
    then err (invalid_request "image tag must not be empty")
    else ok (name, some tag)

-- the name and the tag: the last colon behind the last slash parts them
unfoldable pub split_tag : String → Result Error (String × Option String)
split_tag remainder =
    let (path, base) = at_last_slash remainder in
    elim (rsplit_once colon base) [
      | none ↦ ok (remainder, none)
      | some (head, tag) ↦ tag_of (path ++ head) tag
    ]

abbrev named : Option String → Result Error (String × Option String) → Result Error ImageRef
named digest (err e) = err e
named digest (ok (name, tag)) =
    if is_empty name
    then err (invalid_request "image name must not be empty")
    else ok (record { name = name; tag = tag; digest = digest })

abbrev tagged : Result Error (String × Option String) → Result Error ImageRef
tagged (err e) = err e
tagged (ok (remainder, digest)) = named digest (split_tag remainder)

unfoldable pub parse : String → Result Error ImageRef
parse reference =
    if is_empty reference
    then err (invalid_request "image reference is empty")
    else tagged (split_digest reference)

unfoldable pub effective_tag : ImageRef → String
effective_tag r = unwrap_or "latest" r.tag

abbrev pub is_digest_pinned : ImageRef → Bool
is_digest_pinned r = is_some r.digest
