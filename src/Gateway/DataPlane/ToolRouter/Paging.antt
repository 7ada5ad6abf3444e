-- ===== src/Gateway/DataPlane/ToolRouter/Paging.antt =====
-- The pages of `tools/list` in crates/gateway/src/routes/tool_router.rs, as a client walks over
-- them by their cursors.
use mcp_oxide.Prelude.{
  ℕ, zero, suc, ◌+◌, ◌-◌, ◌<◌, ◌≤◌, ◌%◌, ◌^◌, String, true, Option, none, some, List, [], ◌∷◌, ◌++◌,
  ◌≡◌, ◌∙◌, ap, refl, arith, length, take, drop, leb, ltb, Bool-cases, inl, inr,
}
use mcp_oxide.Text.Decimal.{to_decimal}
use mcp_oxide.Text.Decimal.RoundTrip.{parse_u64-to_decimal}
use mcp_oxide.Gateway.DataPlane.ToolRouter.{cursor_start_of, page_of, next_cursor_of, page_end, min}

read_back :
    (e size : ℕ)
    → e < 2 ^ 64
    → cursor_start_of (record { cursor = some (to_decimal e); page_size = some size }) ≡ e
unfolding cursor_start_of
read_back e size h = rw (parse_u64-to_decimal e h) refl

module _ {A : Type 0} where
  -- what a client collects that starts at `start` and follows the cursors for at most `fuel` pages
  unfoldable pub pages : ℕ → ℕ → ℕ → List A → Option (List A)
  pages zero start size xs = none
  pages (suc fuel) start size xs =
      let next = next_cursor_of start size xs in
      let rest =
        pages fuel (cursor_start_of (record { cursor = next; page_size = some size })) size xs in
      elim (page_of start size xs) [
        | none ↦ none
        | some page ↦ elim next [
          | none ↦ some page
          | some c ↦ elim rest [ none ↦ none | some more ↦ some (page ++ more) ]
        ]
      ]

  take-drop : (n : ℕ) (xs : List A) → take n xs ++ drop n xs ≡ xs
  take-drop zero xs = refl
  take-drop (suc n) [] = refl
  take-drop (suc n) (x ∷ xs) = ap (λ ys. x ∷ ys) (take-drop n xs)

  -- a stretch from `s` to `e`, and what follows it
  take-drop_at : (s e k : ℕ) (xs : List A) → e ≡ s + k → take k (drop s xs) ++ drop e xs ≡ drop s xs
  take-drop_at zero e k xs h = let same : e ≡ k = omega (arith, h) in rw same (take-drop k xs)
  take-drop_at (suc s) zero k xs h = absurd (omega (arith, h))
  take-drop_at (suc s) (suc e) zero [] h = refl
  take-drop_at (suc s) (suc e) (suc k) [] h = refl
  take-drop_at (suc s) (suc e) k (x ∷ xs) h = take-drop_at s e k xs (omega (arith, h))

  length-drop : (n : ℕ) (xs : List A) → length (drop n xs) ≡ length xs - n
  length-drop zero xs = omega arith
  length-drop (suc n) [] = omega arith
  length-drop (suc n) (x ∷ xs) = omega (arith, length-drop n xs)

  take-all : (n : ℕ) (xs : List A) → length xs ≤ n → take n xs ≡ xs
  take-all zero [] h = refl
  take-all zero (x ∷ xs) h = ground arith
  take-all (suc n) [] h = refl
  take-all (suc n) (x ∷ xs) h = ap (λ ys. x ∷ ys) (take-all n xs (omega (arith, h)))

  page_of_lem :
      (start size : ℕ) (xs : List A)
      → 1 ≤ size
      → start ≤ length xs
      → start + size < 2 ^ 64
      → page_of start size xs ≡ some (take (page_end start size xs - start) (drop start xs))
  unfolding page_of
  page_of_lem start size xs pos inside fits =
      let begin : min start (length xs) ≡ start = ground arith in
      let wraps : (start + size) % 2 ^ 64 ≡ start + size = omega (arith, fits) in
      let up : leb start (page_end start size xs) ≡ true = ground arith in
      let in_bounds : leb (page_end start size xs) (length xs) ≡ true = ground arith in
      rw (begin, up, in_bounds) refl

  pages_last :
      (fuel start size : ℕ) (xs page : List A)
      → page_of start size xs ≡ some page
      → next_cursor_of start size xs ≡ none
      → pages (suc fuel) start size xs ≡ some page
  unfolding pages
  pages_last fuel start size xs page h k = ground arith

  pages_more :
      (fuel start size : ℕ) (xs page more : List A) (c : String)
      → page_of start size xs ≡ some page
      → next_cursor_of start size xs ≡ some c
      → pages fuel (cursor_start_of (record { cursor = some c; page_size = some size })) size xs
        ≡ some more
      → pages (suc fuel) start size xs ≡ some (page ++ more)
  unfolding pages
  pages_more fuel start size xs page more c h k rest = ground arith

  -- `tools/list` in the loop of a client: with at least one tool per page, a client that follows
  -- the cursors from `start` collects exactly the visible tools from there on, in order, each once,
  -- within as many pages as there are tools and one more, provided that no position overflows.
  pub pages_complete :
      (fuel start size : ℕ) (xs : List A)
      → 1 ≤ size
      → start ≤ length xs
      → length xs + size < 2 ^ 64
      → length xs < fuel + start
      → pages fuel start size xs ≡ some (drop start xs)
  unfolding next_cursor_of
  pages_complete zero start size xs pos inside fits enough = absurd (omega (arith, inside, enough))
  pages_complete (suc fuel) start size xs pos inside fits enough =
      let e = page_end start size xs in
      let page = page_of_lem start size xs pos inside (omega (arith, inside, fits)) in
      elim (Bool-cases (ltb e (length xs))) [
        | inl more ↦
            let wraps : (start + size) % 2 ^ 64 ≡ start + size = omega (arith, inside, fits) in
            let at : e ≡ start + size = ground arith in
            let within : e ≤ length xs = ground arith in
            let back : cursor_start_of
                  (record { cursor = some (to_decimal e); page_size = some size })
                ≡ e =
              read_back e size (omega (arith, within, fits)) in
            let ih =
              pages_complete fuel e size xs pos within fits (omega (arith, enough, at, pos)) in
            pages_more fuel start size xs _ _ (to_decimal e) page (rw more refl)
              (rw (back, ih) refl)
            ∙ ap some (take-drop_at start e (e - start) xs (omega (arith, at)))
        | inr last ↦
            let all : length xs ≤ e = ground arith in
            pages_last fuel start size xs _ page (rw last refl)
            ∙ ap some
                (take-all (e - start) (drop start xs) (omega (arith, length-drop start xs, all)))
      ]
