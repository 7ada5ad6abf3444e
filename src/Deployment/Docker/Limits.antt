-- ===== src/Deployment/Docker/Limits.antt =====
-- The limits of a container: crates/deployment/src/docker.rs, `parse_cpu_limit` and
-- `parse_memory_limit`.
use mcp_oxide.Prelude.{
  ℕ, ◌*◌, ◌-◌, ◌^◌, ◌≡◌, refl, List, [], ◌∷◌, String, ◌||◌, not, Option, none, some, leb,
  if◌then◌else◌,
}
use mcp_oxide.Text.{is_empty, trim, strip_suffix}
use mcp_oxide.Text.Decimal.{parse_u64}
use mcp_oxide.Deployment.Docker.Daemon.{Floats}

abbrev min : ℕ → ℕ → ℕ
min a b = if leb a b then a else b

-- `u64::saturating_mul`
abbrev pub saturating_mul : ℕ → ℕ → ℕ
saturating_mul a b = min (a * b) (2 ^ 64 - 1)

abbrev pub i64_max : ℕ
i64_max = 2 ^ 63 - 1

abbrev pub units : List (String × ℕ)
units =
    ("Gi", 1024 * 1024 * 1024)
    ∷ ("Mi", 1024 * 1024)
    ∷ ("Ki", 1024)
    ∷ ("G", 1000000000)
    ∷ ("M", 1000000)
    ∷ ("K", 1000)
    ∷ []

-- the number before the unit and what the unit stands for: the first of the units that the text
-- ends with
unfoldable pub split_unit : List (String × ℕ) → String → String × ℕ
split_unit [] raw = (raw, 1)
split_unit (unit ∷ rest) raw =
    let other = split_unit rest raw in
    elim (strip_suffix unit.0 raw) [ none ↦ other | some v ↦ (v, unit.1) ]

abbrev capped : ℕ → Option ℕ → Option ℕ
capped mult none = none
capped mult (some num) = some (min (saturating_mul num mult) i64_max)

unfoldable pub memory_of : String → Option ℕ
memory_of raw =
    let (number, mult) = split_unit units raw in
    if is_empty raw then none else capped mult (parse_u64 (trim number))

unfoldable pub parse_memory_limit : Option String → Option ℕ
parse_memory_limit none = none
parse_memory_limit (some s) = memory_of (trim s)

module _ {F : Type 0} (floats : Floats F) where
  abbrev nanos_of : F → Option ℕ
  nanos_of nanos =
      if floats.le nanos (floats.of_nat 0) || floats.le (floats.of_nat 9223372000000000000) nanos
      then none
      else some (floats.as_i64 nanos)

  abbrev cpu_number : ℕ → Option F → Option ℕ
  cpu_number scale none = none
  cpu_number scale (some num) =
      if not (floats.is_finite num) || floats.le num (floats.of_nat 0)
      then none
      else nanos_of (floats.round (floats.times num (floats.of_nat scale)))

  unfoldable pub cpu_of : String → Option ℕ
  cpu_of raw = if is_empty raw then none else elim (strip_suffix "m" raw) [
    | some ms ↦ cpu_number 1000000 (floats.parse ms)
    | none ↦ cpu_number 1000000000 (floats.parse raw)
  ]

  unfoldable pub parse_cpu_limit : Option String → Option ℕ
  parse_cpu_limit none = none
  parse_cpu_limit (some s) = cpu_of (trim s)

memory_limit_tests :
    (parse_memory_limit (some "512Mi") ≡ some (512 * 1024 * 1024))
    × (parse_memory_limit (some "1Gi") ≡ some (1024 * 1024 * 1024))
    × (parse_memory_limit (some "500M") ≡ some 500000000)
    × (parse_memory_limit (some " 256 ") ≡ some 256)
    × (parse_memory_limit (some "18446744073709551615") ≡ some i64_max)
    × (parse_memory_limit (some "lots") ≡ none)
    × (parse_memory_limit none ≡ none)
unfolding parse_memory_limit memory_of split_unit trim strip_suffix parse_u64
memory_limit_tests = (refl, refl, refl, refl, refl, refl, refl)
