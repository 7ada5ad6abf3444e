-- ===== src/Authz/YamlRbac/Glob.antt =====
-- The patterns of actions.
use Prim.Native.String
use mcp_oxide.Prelude.{
  String, true, [], ◌∷◌, ◌≡◌, ◌↔◌, inl, inr, sym, ◌∙◌, ◌==◌, eq_iff, arith, Bool-cases,
  Option-cases,
}
use text.Mathlib.TextLemmas.{nil-append, append_assoc, append_cancel_right}
use mcp_oxide.Text.{strip_suffix, starts_with, format}
use mcp_oxide.Text.Prefix.{starts_with_iff}
use mcp_oxide.Text.Suffix.{strip_suffix_iff}
use mcp_oxide.Authz.YamlRbac.{action_glob_matches}

-- What a pattern means: the action itself; `prefix*`, any action that begins with the prefix;
-- `prefix.*`, the prefix too. A lone `*` is the case of an empty prefix.
pub data Matches (pattern action : String) : Type 0 where
  exact : pattern ≡ action → Matches pattern action
  star :
      (prefix rest : String)
      → pattern ≡ String.◌++◌ prefix "*"
      → action ≡ String.◌++◌ prefix rest
      → Matches pattern action
  below :
      (prefix : String)
      → pattern ≡ String.◌++◌ prefix ".*"
      → action ≡ prefix
      → Matches pattern action

begins :
    (action prefix : String)
    → starts_with action prefix ≡ true
    → (rest : String) × (action ≡ String.◌++◌ prefix rest)
begins action prefix = (starts_with_iff action prefix).0

-- `prefix.*` is `(prefix.)*`
dot_star : (prefix : String) → String.◌++◌ prefix ".*" ≡ String.◌++◌ (String.◌++◌ prefix ".") "*"
dot_star prefix = sym (append_assoc prefix "." "*")

sound :
    (pattern action : String) → action_glob_matches pattern action ≡ true → Matches pattern action
unfolding action_glob_matches
sound pattern action h = elim (Bool-cases (pattern == "*")) [
  | inl any ↦
      star "" action ((eq_iff pattern "*").0 any ∙ sym (nil-append "*")) (sym (nil-append action))
  | inr not_any ↦ elim (Bool-cases (pattern == action)) [
    | inl same ↦ exact ((eq_iff pattern action).0 same)
    | inr not_same ↦ elim (Option-cases (strip_suffix ".*" pattern)) [
      | inr (prefix, e) ↦ elim (Bool-cases (action == prefix)) [
        | inl whole ↦
            below prefix ((strip_suffix_iff ".*" pattern prefix).0 e)
              ((eq_iff action prefix).0 whole)
        | inr not_whole ↦
            let (rest, b) = begins action (format (prefix ∷ "." ∷ [])) (ground arith) in
            star (format (prefix ∷ "." ∷ [])) rest
              ((strip_suffix_iff ".*" pattern prefix).0 e ∙ dot_star prefix) b
      ]
      | inl undotted ↦ elim (Option-cases (strip_suffix "*" pattern)) [
        | inr (prefix, e) ↦
            let (rest, b) = begins action prefix (ground arith) in
            star prefix rest ((strip_suffix_iff "*" pattern prefix).0 e) b
        | inl plain ↦ ground arith
      ]
    ]
  ]
]

prefix_matches :
    (prefix rest action : String)
    → action ≡ String.◌++◌ prefix rest
    → starts_with action prefix ≡ true
prefix_matches prefix rest action e = (starts_with_iff action prefix).1 (rest, e)

star_complete :
    (pattern action prefix rest : String)
    → pattern ≡ String.◌++◌ prefix "*"
    → action ≡ String.◌++◌ prefix rest
    → action_glob_matches pattern action ≡ true
unfolding action_glob_matches
star_complete pattern action prefix rest e b = elim (Option-cases (strip_suffix ".*" pattern)) [
  | inr (q, dotted) ↦
      let same : String.◌++◌ q "." ≡ prefix =
        append_cancel_right (String.◌++◌ q ".") prefix "*"
          (sym (dot_star q) ∙ sym ((strip_suffix_iff ".*" pattern q).0 dotted) ∙ e) in
      ground (arith, dotted, prefix_matches (String.◌++◌ q ".") rest action (rw same b))
  | inl undotted ↦ ground (
    arith,
    undotted,
    (strip_suffix_iff "*" pattern prefix).1 e,
    prefix_matches prefix rest action b,
  )
]

complete :
    (pattern action : String) → Matches pattern action → action_glob_matches pattern action ≡ true
unfolding action_glob_matches
complete pattern action (exact e) = ground (arith, (eq_iff pattern action).1 e)
complete pattern action (star prefix rest e b) = star_complete pattern action prefix rest e b
complete pattern action (below prefix e b) =
    ground (arith, (strip_suffix_iff ".*" pattern prefix).1 e, (eq_iff action prefix).1 b)

-- `action_glob_matches` accepts exactly the actions that the pattern means: the pattern itself,
-- every action that begins with `prefix` for `prefix*`, and `prefix` too for `prefix.*`.
pub action_glob_matches_iff :
    (pattern action : String) → (action_glob_matches pattern action ≡ true) ↔ Matches pattern action
action_glob_matches_iff pattern action = (sound pattern action, complete pattern action)
