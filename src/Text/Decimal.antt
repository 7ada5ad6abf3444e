-- ===== src/Text/Decimal.antt =====
-- `u64` to text and back: `Display` and `FromStr`.
pub mod RoundTrip
use Prim.Native.Char.{code}
use Prim.Native.String.{[], ◌∷◌, ◌++◌}
use mcp_oxide.Prelude.{
  ℕ, zero, suc, ◌+◌, ◌-◌, ◌*◌, ◌/◌, ◌%◌, ◌^◌, String, true, false, Option, none, some, ltb, nat_eq,
  if◌then◌else◌, ◌≡◌, refl,
}
use mcp_oxide.Text.{is_ascii_digit, is_char}

abbrev pub digit : ℕ → String
digit zero = "0"
digit (suc zero) = "1"
digit (suc (suc zero)) = "2"
digit (suc (suc (suc zero))) = "3"
digit (suc (suc (suc (suc zero)))) = "4"
digit (suc (suc (suc (suc (suc zero))))) = "5"
digit (suc (suc (suc (suc (suc (suc zero)))))) = "6"
digit (suc (suc (suc (suc (suc (suc (suc zero))))))) = "7"
digit (suc (suc (suc (suc (suc (suc (suc (suc zero)))))))) = "8"
digit _ = "9"

-- `Display` of an unsigned integer; the fuel bounds the number of digits
unfoldable pub decimal_digits : ℕ → ℕ → String
decimal_digits zero n = []
decimal_digits (suc f) n = elim (ltb n 10) [
  | true ↦ digit n
  | false ↦ decimal_digits f (n / 10) ++ digit (n % 10)
]

unfoldable pub to_decimal : ℕ → String
unfolding decimal_digits
to_decimal n = decimal_digits (suc n) n

-- the digits behind `n`, by `checked_mul` and `checked_add`
unfoldable pub scan : String → ℕ → Option ℕ
scan [] n = some n
scan (c ∷ s) n =
    let m = n * 10 + (code c - b'0') in
    let rest = scan s m in
    if is_ascii_digit c then (if ltb m (2 ^ 64) then rest else none) else none

-- `str::parse::<u64>`: one or more digits, perhaps behind a plus sign
abbrev scan_some : String → Option ℕ
scan_some [] = none
scan_some (c ∷ s) = scan (c ∷ s) 0

unfoldable pub parse_u64 : String → Option ℕ
unfolding scan
parse_u64 [] = none
parse_u64 (c ∷ s) = if is_char b'+' c then scan_some s else scan (c ∷ s) 0

to_decimal_tests : to_decimal 18446744073709551615 ≡ "18446744073709551615"
unfolding to_decimal
to_decimal_tests = refl

parse_u64_tests :
    (parse_u64 "007" ≡ some 7)
    × (parse_u64 "+7" ≡ some 7)
    × (parse_u64 "+" ≡ none)
    × (parse_u64 "18446744073709551616" ≡ none)
unfolding parse_u64
parse_u64_tests = (refl, refl, refl, refl)
