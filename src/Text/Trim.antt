-- ===== src/Text/Trim.antt =====
-- Trimming leaves a text alone that holds no character to trim.
use Prim.Native.Char.{Char}
use Prim.Native.String.{[], ◌∷◌, ◌++◌}
use text.Mathlib.TextLemmas.{nil-append, cons-append}
use mcp_oxide.Prelude.{String, Bool, true, false, ◌≡◌, ◌≢◌, refl, arith}
use mcp_oxide.Text.{trim_start, trim_end, trim_matches}

-- no character of the text passes the test
abbrev pub Free : (Char → Bool) → String → Type 0
Free p [] = Unit
Free p (c ∷ s) = (p c ≡ false) × Free p s

module _ (p : Char → Bool) where
  pub Free-append : (s t : String) → Free p s → Free p t → Free p (s ++ t)
  Free-append [] t _ k = rw nil-append k
  Free-append (c ∷ s) t (q, h) k = rw cons-append (q, Free-append s t h k)

  pub trim_start-Free : (s : String) → Free p s → trim_start p s ≡ s
  unfolding trim_start
  trim_start-Free [] _ = refl
  trim_start-Free (c ∷ s) h = ground arith

  pub trim_end-Free : (s : String) → Free p s → trim_end p s ≡ s
  unfolding trim_end
  trim_end-Free [] _ = refl
  trim_end-Free (c ∷ s) (q, h) = ground (arith, trim_end-Free s h)

  pub trim_matches-Free : (s : String) → Free p s → trim_matches p s ≡ s
  unfolding trim_matches
  trim_matches-Free s h = rw (trim_start-Free s h) (trim_end-Free s h)

  -- one character that passes behind a text that holds none
  pub trim_end-append :
      (s : String) (c : Char) → Free p s → p c ≡ true → trim_end p (s ++ (c ∷ [])) ≡ s
  unfolding trim_end
  trim_end-append [] c _ q = rw nil-append (ground arith)
  trim_end-append (d ∷ s) c (r, h) q = rw cons-append (ground (arith, trim_end-append s c h q))

  -- what begins with a character that does not pass is left alone at its start
  pub trim_start-append : (s t : String) → s ≢ [] → Free p s → trim_start p (s ++ t) ≡ s ++ t
  unfolding trim_start
  trim_start-append [] t ne _ = absurd (ne refl)
  trim_start-append (c ∷ s) t ne h = rw cons-append (ground arith)
