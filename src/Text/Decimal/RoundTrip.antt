-- ===== src/Text/Decimal/RoundTrip.antt =====
-- Reading back what was printed.
use Prim.Native.Char.{Char, code}
use Prim.Native.String.{[], ◌∷◌, ◌++◌}
use text.Mathlib.TextLemmas.{nil-append, cons-append, append-ne-nil_of_right_ne-nil, cons-ne-nil}
use mcp_oxide.Prelude.{
  ℕ, zero, suc, ◌+◌, ◌-◌, ◌*◌, ◌/◌, ◌%◌, ◌^◌, ◌<◌, String, Option, none, some, ◌≡◌, ◌≢◌, refl,
  arith, ap, ◌∙◌, Bool, ltb, inl, inr, Bool-cases,
}
use mcp_oxide.Text.{is_char}
use mcp_oxide.Text.Trim.{Free, Free-append}
use mcp_oxide.Text.Decimal.{digit, decimal_digits, to_decimal, scan, parse_u64}

abbrev pub then_scan : Option ℕ → String → Option ℕ
then_scan none t = none
then_scan (some m) t = scan t m

scan-append : (s t : String) (n : ℕ) → scan (s ++ t) n ≡ then_scan (scan s n) t
unfolding scan
scan-append [] t n = rw nil-append
scan-append (c ∷ s) t n =
    rw cons-append (ground (arith, scan-append s t (n * 10 + (code c - b'0'))))

-- the value of a digit's character
scan-digit : (d n : ℕ) → d < 10 → n * 10 + d < 2 ^ 64 → scan (digit d) n ≡ some (n * 10 + d)
unfolding scan
scan-digit zero n h k = ground arith
scan-digit (suc zero) n h k = ground arith
scan-digit (suc (suc zero)) n h k = ground arith
scan-digit (suc (suc (suc zero))) n h k = ground arith
scan-digit (suc (suc (suc (suc zero)))) n h k = ground arith
scan-digit (suc (suc (suc (suc (suc zero))))) n h k = ground arith
scan-digit (suc (suc (suc (suc (suc (suc zero)))))) n h k = ground arith
scan-digit (suc (suc (suc (suc (suc (suc (suc zero))))))) n h k = ground arith
scan-digit (suc (suc (suc (suc (suc (suc (suc (suc zero)))))))) n h k = ground arith
scan-digit (suc (suc (suc (suc (suc (suc (suc (suc (suc e))))))))) n h k =
    let z : e ≡ 0 = omega arith in rw z (ground arith)

scan-decimal_digits : (f n : ℕ) → n < f → n < 2 ^ 64 → scan (decimal_digits f n) 0 ≡ some n
unfolding decimal_digits
scan-decimal_digits zero n h k = absurd (omega arith)
scan-decimal_digits (suc f) n h k = elim (Bool-cases (ltb n 10)) [
  | inl small ↦
      rw (small, decimal_digits)
        (scan-digit n 0 (ground arith) (omega arith) ∙ ap some (omega arith))
  | inr large ↦
      rw (large, decimal_digits)
        (scan-append (decimal_digits f (n / 10)) (digit (n % 10)) 0
          ∙ (rw (scan-decimal_digits f (n / 10) (ground arith) (omega arith))
              (scan-digit (n % 10) (n / 10) (omega arith) (omega arith) ∙ ap some (omega arith))))
]

-- what holds of no digit's character holds of no character of a printed number
Free-decimal_digits :
    (p : Char → Bool) → ((d : ℕ) → Free p (digit d)) → (f n : ℕ) → Free p (decimal_digits f n)
unfolding decimal_digits
Free-decimal_digits p h zero n = tt
Free-decimal_digits p h (suc f) n = elim (Bool-cases (ltb n 10)) [
  | inl small ↦ rw (small, decimal_digits, Free) (h n)
  | inr large ↦
      rw (large, decimal_digits, Free)
        (Free-append p (decimal_digits f (n / 10)) (digit (n % 10))
          (Free-decimal_digits p h f (n / 10)) (h (n % 10)))
]

pub Free-to_decimal :
    (p : Char → Bool) → ((d : ℕ) → Free p (digit d)) → (n : ℕ) → Free p (to_decimal n)
unfolding to_decimal
Free-to_decimal p h n = Free-decimal_digits p h (suc n) n

-- a test that fails at the characters 0 to 9 fails at every digit
pub Free-digit : (p : Char → Bool) → Free p "0123456789" → (d : ℕ) → Free p (digit d)
Free-digit p h zero = (h.0, tt)
Free-digit p h (suc zero) = (h.1.0, tt)
Free-digit p h (suc (suc zero)) = (h.1.1.0, tt)
Free-digit p h (suc (suc (suc zero))) = (h.1.1.1.0, tt)
Free-digit p h (suc (suc (suc (suc zero)))) = (h.1.1.1.1.0, tt)
Free-digit p h (suc (suc (suc (suc (suc zero))))) = (h.1.1.1.1.1.0, tt)
Free-digit p h (suc (suc (suc (suc (suc (suc zero)))))) = (h.1.1.1.1.1.1.0, tt)
Free-digit p h (suc (suc (suc (suc (suc (suc (suc zero))))))) = (h.1.1.1.1.1.1.1.0, tt)
Free-digit p h (suc (suc (suc (suc (suc (suc (suc (suc zero)))))))) = (h.1.1.1.1.1.1.1.1.0, tt)
Free-digit p h _ = (h.1.1.1.1.1.1.1.1.1.0, tt)

parse_u64-scan :
    (s : String) (n : ℕ) → Free (is_char b'+') s → scan s 0 ≡ some n → s ≢ [] → parse_u64 s ≡ some n
unfolding parse_u64
parse_u64-scan [] n h k ne = absurd (ne refl)
parse_u64-scan (c ∷ s) n h k ne = ground arith

digit-ne-nil : (d : ℕ) → digit d ≢ []
digit-ne-nil zero = cons-ne-nil _ _
digit-ne-nil (suc zero) = cons-ne-nil _ _
digit-ne-nil (suc (suc zero)) = cons-ne-nil _ _
digit-ne-nil (suc (suc (suc zero))) = cons-ne-nil _ _
digit-ne-nil (suc (suc (suc (suc zero)))) = cons-ne-nil _ _
digit-ne-nil (suc (suc (suc (suc (suc zero))))) = cons-ne-nil _ _
digit-ne-nil (suc (suc (suc (suc (suc (suc zero)))))) = cons-ne-nil _ _
digit-ne-nil (suc (suc (suc (suc (suc (suc (suc zero))))))) = cons-ne-nil _ _
digit-ne-nil (suc (suc (suc (suc (suc (suc (suc (suc zero)))))))) = cons-ne-nil _ _
digit-ne-nil _ = cons-ne-nil _ _

pub to_decimal-ne-nil : (n : ℕ) → to_decimal n ≢ []
unfolding to_decimal
to_decimal-ne-nil n = elim (Bool-cases (ltb n 10)) [
  | inl small ↦ rw (small, decimal_digits) (digit-ne-nil n)
  | inr large ↦
      rw (large, decimal_digits)
        (append-ne-nil_of_right_ne-nil (decimal_digits n (n / 10)) (digit-ne-nil (n % 10)))
]

-- Every u64 is read back from its decimal print.
pub parse_u64-to_decimal : (n : ℕ) → n < 2 ^ 64 → parse_u64 (to_decimal n) ≡ some n
unfolding to_decimal
parse_u64-to_decimal n h =
    parse_u64-scan (to_decimal n) n
      (Free-to_decimal (is_char b'+') (Free-digit (is_char b'+') (ground arith)) n)
      (scan-decimal_digits (suc n) n (omega arith) h) (to_decimal-ne-nil n)
