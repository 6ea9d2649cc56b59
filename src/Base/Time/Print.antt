-- ===== src/Base/Time/Print.antt =====
-- What the tier uses of Go's `time` package: Time.Format with RFC3339Nano, and Time.Unix.
use Prim.Native.Char.{code}
use Prim.Native.Nat.{ℕ, zero, suc, ◌+◌, ◌-◌, ◌*◌, ◌/◌, ◌%◌}
use Prim.Native.String.{String}
use mathlib.Core.Path.{◌≡◌, refl}
use mathlib.Core.Bool.{Bool, true, ◌&&◌}
use mathlib.Core.Option.{Option, none, some}
use mobility_api.Base.Tests.{eqb, if◌then◌else◌}
use mobility_api.Base.Int.{ℤ, pos, negsuc, digit, minus}
use mobility_api.Base.Time.{
  Moment, short, colon, z_colon, parse_time, days_in, parts, ended_step, fixed, one_or_two, literal,
  in_range, separator, spaces, frac_value, with_digits, fraction, sign, zone, zone_of, short_zone,
  colon_zone, then_read,
}

-- Exactly `k` digits in front of `out`.
unfoldable pub padded : ℕ → ℕ → String → String
padded zero n out = out
padded (suc k) n out = padded k (n / 10) (String.◌∷◌ (digit (n % 10)) out)

unfoldable pub all_zero : String → Bool
all_zero String.[] = true
all_zero (String.◌∷◌ c s) = eqb (code c) b'0' && all_zero s

-- The digits in front of `out`, without the zeros at their end.
unfoldable pub trimmed : String → String → String
unfolding all_zero
trimmed String.[] out = out
trimmed (String.◌∷◌ c s) out =
    let rest = String.◌∷◌ c (trimmed s out) in if all_zero (String.◌∷◌ c s) then out else rest

unfoldable pub print_nanos : ℕ → String → String
print_nanos n out = if eqb n 0 then out else String.◌∷◌ "." (trimmed (padded 9 n "") out)

unfoldable pub print_zone : Bool → ℕ → String
print_zone west zero = "Z"
print_zone west (suc n) =
    String.◌∷◌ (if west then "-" else "+")
      (padded 2 (suc n / 60) (String.◌∷◌ ":" (padded 2 (suc n % 60) "")))

-- t.Format(time.RFC3339Nano)
unfoldable pub format_time : Moment → String
format_time m = padded 4 m.year (
    String.◌∷◌ "-" (
      padded 2 m.month (
        String.◌∷◌ "-" (
          padded 2 m.day (
            String.◌∷◌ "T" (
              padded 2 m.hour (
                String.◌∷◌ ":" (
                  padded 2 m.minute (
                    String.◌∷◌ ":" (
                      padded 2 m.second (print_nanos m.nanos (print_zone m.west m.offset))))))))))))

-- The days before a year and before a month, from the start of the year 0.
days_before_year : ℕ → ℕ
days_before_year y = 365 * y + (y + 3) / 4 - (y + 99) / 100 + (y + 399) / 400

days_before_month : ℕ → ℕ → ℕ
unfolding days_in
days_before_month zero y = 0
days_before_month (suc zero) y = 0
days_before_month (suc (suc m)) y = days_before_month (suc m) y + days_in (suc m) y

-- The seconds by the clock of its zone.
local_seconds : Moment → ℕ
unfolding days_before_year days_before_month
local_seconds m =
    ((days_before_year m.year + days_before_month m.month m.year + (m.day - 1)) * 24 + m.hour)
      * 3600
    + m.minute * 60
    + m.second

-- The seconds from the start of the year 0 to 1970.
abbrev epoch : ℕ
epoch = 719528 * 86400

-- Time.Unix
unfoldable pub unix_time : Moment → ℤ
unfolding local_seconds minus
unix_time m =
    if m.west
    then minus (local_seconds m + m.offset * 60) epoch
    else minus (local_seconds m) (epoch + m.offset * 60)

abbrev formatted : Option Moment → String
formatted none = "none"
formatted (some m) = format_time m

abbrev seconds_of : Option Moment → Option ℤ
seconds_of none = none
seconds_of (some m) = some (unix_time m)

time_tests :
    (formatted (parse_time Bool.false short "2011-06-01 18:57:52.50+02")
      ≡ "2011-06-01T18:57:52.5+02:00")
    × (formatted (parse_time true colon "2011-02-29T18:57:52-02:30") ≡ "none")
    × (formatted (parse_time true z_colon "2012-02-29T8:57:52Z") ≡ "2012-02-29T08:57:52Z")
    × (seconds_of (parse_time true z_colon "2000-03-01T00:00:00Z") ≡ some (pos 951868800))
    × (seconds_of (parse_time true z_colon "2023-11-14T23:13:20+01:00") ≡ some (pos 1700000000))
    × (seconds_of (parse_time true z_colon "1969-12-31T23:59:59Z") ≡ some (negsuc 0))
unfolding parse_time format_time unix_time parts ended_step fixed one_or_two literal in_range
    separator spaces frac_value with_digits fraction sign zone zone_of short_zone colon_zone padded
    trimmed print_nanos print_zone digit then_read mobility_api.Base.Text.take_digits
time_tests = (refl, refl, refl, refl, refl, refl)
