-- ===== src/Text.antt =====
-- The `str` functions of Rust's standard library that the program calls, over the native texts,
-- character by character.
pub mod Trim
pub mod Decimal
pub mod Prefix
pub mod Suffix
pub mod Last
use Prim.Native.Char.{Char, code, len_utf8}
use Prim.Native.String
use Prim.Native.String.{[], ◌∷◌}
use mathlib.Core.List.{List, [], ◌∷◌}
use mcp_oxide.Prelude.{
  ℕ, ◌+◌, String, Bool, true, false, ◌&&◌, ◌||◌, Option, none, some, is_some, ◌==◌, leb, nat_eq,
  if◌then◌else◌, ◌≡◌, refl,
}

-- `format!`: the parts one behind the other
abbrev pub format : List String → String
format [] = ""
format (s ∷ []) = s
format (s ∷ parts) = String.◌++◌ s (format parts)

-- `str::is_empty`
abbrev pub is_empty : String → Bool
is_empty [] = true
is_empty (c ∷ s) = false

-- `char::is_whitespace`: the Unicode property White_Space
abbrev pub is_whitespace : Char → Bool
is_whitespace c =
    let n = code c in
    (leb 9 n && leb n 13)
    || nat_eq n 32
    || nat_eq n 0x85
    || nat_eq n 0xa0
    || nat_eq n 0x1680
    || (leb 0x2000 n && leb n 0x200a)
    || nat_eq n 0x2028
    || nat_eq n 0x2029
    || nat_eq n 0x202f
    || nat_eq n 0x205f
    || nat_eq n 0x3000

abbrev pub is_ascii_digit : Char → Bool
is_ascii_digit c = leb b'0' (code c) && leb (code c) b'9'

abbrev pub is_ascii_lowercase : Char → Bool
is_ascii_lowercase c = leb b'a' (code c) && leb (code c) b'z'

abbrev pub is_char : ℕ → Char → Bool
is_char n c = nat_eq (code c) n

-- `str::len`: the bytes of the UTF-8
unfoldable pub byte_len : String → ℕ
byte_len [] = 0
byte_len (c ∷ s) = len_utf8 c + byte_len s

-- `str::contains` with a character or a predicate
unfoldable pub contains : (Char → Bool) → String → Bool
contains p [] = false
contains p (c ∷ s) = p c || contains p s

-- `trim_start_matches` and `trim_end_matches`
unfoldable pub trim_start : (Char → Bool) → String → String
trim_start p [] = []
trim_start p (c ∷ s) = if p c then trim_start p s else c ∷ s

unfoldable pub trim_end : (Char → Bool) → String → String
trim_end p [] = []
trim_end p (c ∷ s) = let rest = trim_end p s in if p c && is_empty rest then [] else c ∷ rest

-- `str::trim_matches` and `str::trim`
unfoldable pub trim_matches : (Char → Bool) → String → String
unfolding trim_start trim_end
trim_matches p s = trim_end p (trim_start p s)

unfoldable pub trim : String → String
unfolding trim_matches
trim = trim_matches is_whitespace

-- `str::strip_prefix`
unfoldable pub strip_prefix : String → String → Option String
strip_prefix [] s = some s
strip_prefix (c ∷ p) [] = none
strip_prefix (c ∷ p) (d ∷ s) = if nat_eq (code c) (code d) then strip_prefix p s else none

-- `str::strip_suffix`
abbrev put_back : Char → Option String → Option String
put_back c none = none
put_back c (some s) = some (c ∷ s)

unfoldable pub strip_suffix : String → String → Option String
strip_suffix t [] = if t == [] then some [] else none
strip_suffix t (c ∷ s) =
    let shorter = put_back c (strip_suffix t s) in if (c ∷ s) == t then some [] else shorter

-- `str::starts_with`
unfoldable pub starts_with : String → String → Bool
unfolding strip_prefix
starts_with s p = is_some (strip_prefix p s)

-- `str::split` at a character
abbrev onto_first : Char → List String → List String
onto_first c [] = (c ∷ []) ∷ []
onto_first c (part ∷ parts) = (c ∷ part) ∷ parts

unfoldable pub split : ℕ → String → List String
split n [] = "" ∷ []
split n (c ∷ s) = let parts = split n s in if is_char n c then "" ∷ parts else onto_first c parts

-- `str::rsplit_once` at a character: what stands before and behind its last occurrence
abbrev or_here : Bool → Char → String → Option (String × String) → Option (String × String)
or_here here c s (some (head, tail)) = some (c ∷ head, tail)
or_here here c s none = if here then some ([], s) else none

unfoldable pub rsplit_once : Char → String → Option (String × String)
rsplit_once sep [] = none
rsplit_once sep (c ∷ s) = or_here (nat_eq (code c) (code sep)) c s (rsplit_once sep s)

-- `str::split_once` at a character: what stands before and behind its first occurrence
abbrev behind_first : Char → Option (String × String) → Option (String × String)
behind_first c none = none
behind_first c (some (head, tail)) = some (c ∷ head, tail)

unfoldable pub split_once : Char → String → Option (String × String)
split_once sep [] = none
split_once sep (c ∷ s) =
    let rest = behind_first c (split_once sep s) in
    if nat_eq (code c) (code sep) then some ([], s) else rest

-- `str::split_whitespace`: the words between runs of white space
abbrev onto_word : Char → Bool → List String → List String
onto_word c true words = (c ∷ []) ∷ words
onto_word c false [] = (c ∷ []) ∷ []
onto_word c false (word ∷ words) = (c ∷ word) ∷ words

-- a word ends where white space or the end of the text follows
abbrev ends_word : String → Bool
ends_word [] = true
ends_word (c ∷ s) = is_whitespace c

unfoldable pub split_whitespace : String → List String
split_whitespace [] = []
split_whitespace (c ∷ s) =
    let words = split_whitespace s in
    if is_whitespace c then words else onto_word c (ends_word s) words

split_tests :
    (split_once "=" "a=b=c" ≡ some ("a", "b=c"))
    × (split_once "=" "abc" ≡ none)
    × (split_whitespace "  openid  profile " ≡ "openid" ∷ "profile" ∷ [])
unfolding split_once split_whitespace
split_tests = (refl, refl, refl)
