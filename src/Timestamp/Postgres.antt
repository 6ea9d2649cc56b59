-- ===== src/Timestamp/Postgres.antt =====
-- A timestamp as PostgreSQL prints it, which is what the tier reads of a database.
use Prim.Native.Char.{Char, code}
use Prim.Native.String.{String}
use mobility_api.Base.{
  ℕ, zero, suc, ◌≡◌, refl, ap, Bool, true, false, some, arith, ◌*◌, ◌/◌, ◌%◌, ◌≤◌, ◌<◌, eqb,
  if◌then◌else◌,
}
use mobility_api.Base.Int.{digit}
use mobility_api.Base.Decimal.{digit-is_digit}
use mobility_api.Base.Text.{is_nil, is_digit, take_digits}
use mobility_api.Base.Time.{
  Moment, short, parse_time, parts, then_read, zone, short_zone, ended_step, zone_of, spaces,
  drop_spaces, separator, literal, fraction,
}
use mobility_api.Base.Time.Print.{format_time, padded, print_nanos}
use mobility_api.Base.Time.Fractions.{
  fixed-padded, in_range-some, one_or_two-padded, fraction_nanos,
}
use mobility_api.Base.Time.ReadBack.{
  IsMoment, IsOffset, in_range-fixed, days_in-le, ended_day, sign_plus, sign_minus,
}
use mobility_api.Timestamp.{render, rfc3339}

-- The hours of the zone behind its sign.
hour_zone : Bool → ℕ → String
hour_zone west n = String.◌∷◌ (if west then "-" else "+") (padded 2 (n / 60) "")

-- The ISO style of PostgreSQL: a space in front of the time of day, a fraction without the zeros at its
-- end, and the hours of the zone, for one of whole hours.
unfoldable pub print_pg : Moment → String
unfolding hour_zone
print_pg m = padded 4 m.year (
    String.◌∷◌ "-" (
      padded 2 m.month (
        String.◌∷◌ "-" (
          padded 2 m.day (
            String.◌∷◌ " " (
              padded 2 m.hour (
                String.◌∷◌ ":" (
                  padded 2 m.minute (
                    String.◌∷◌ ":"
                      (padded 2 m.second (print_nanos m.nanos (hour_zone m.west m.offset))))))))))))

not_nil-padded : (k n : ℕ) (c : Char) (s : String) → is_nil (padded k n (String.◌∷◌ c s)) ≡ false
unfolding padded
not_nil-padded zero n c s = refl
not_nil-padded (suc k) n c s = not_nil-padded k (n / 10) (digit (n % 10)) (String.◌∷◌ c s)

not_space : (c : ℕ) → is_digit c ≡ true → eqb c 32 ≡ false
not_space c h = ground arith

-- A digit is no space to skip.
drop_spaces-padded : (n : ℕ) (out : String) → drop_spaces (padded 2 n out) ≡ padded 2 n out
unfolding padded drop_spaces
drop_spaces-padded n out =
    rw (not_space (code (digit (n / 10 % 10))) (digit-is_digit (n / 10))) refl

spaces-padded :
    (n : ℕ) (out : String) → spaces (String.◌∷◌ " " (padded 2 n out)) ≡ some (tt, padded 2 n out)
unfolding spaces
spaces-padded n out = ap (λ s. some (tt, s)) (drop_spaces-padded n out)

fraction-hour_zone :
    (west : Bool) (n : ℕ) → fraction (hour_zone west n) ≡ some (0, hour_zone west n)
unfolding fraction hour_zone
fraction-hour_zone true n = refl
fraction-hour_zone false n = refl

take_digits-hour_zone :
    (west : Bool) (n : ℕ) → take_digits (hour_zone west n) ≡ ("", hour_zone west n)
unfolding take_digits hour_zone
take_digits-hour_zone true n = refl
take_digits-hour_zone false n = refl

zone_of-hours :
    (west : Bool) (n : ℕ) → IsOffset west n → n % 60 ≡ 0 → zone_of west (n / 60 * 60) ≡ (west, n)
unfolding zone_of
zone_of-hours west zero h whole = rw h refl
zone_of-hours west (suc n) h whole =
    let e : suc n / 60 * 60 ≡ suc n = omega (arith, whole) in rw e refl

offset-lt : (west : Bool) (n : ℕ) → IsOffset west n → n < 1500
offset-lt west zero h = omega arith
offset-lt west (suc n) h = h

zone-hour_zone :
    (west : Bool) (n : ℕ)
    → IsOffset west n
    → n % 60 ≡ 0
    → zone short (hour_zone west n) ≡ some ((west, n), "")
unfolding zone short_zone hour_zone then_read
zone-hour_zone true n h whole =
    let hours : n / 60 ≤ 24 = omega (arith, offset-lt true n h) in
    rw
      (
        sign_minus (padded 2 (n / 60) ""),
        in_range-fixed 0 24 (n / 60) "" (omega arith) hours (omega (arith, hours)),
      )
      (ap (λ z. some (z, "")) (zone_of-hours true n h whole))
zone-hour_zone false n h whole =
    let hours : n / 60 ≤ 24 = omega (arith, offset-lt false n h) in
    rw
      (
        sign_plus (padded 2 (n / 60) ""),
        in_range-fixed 0 24 (n / 60) "" (omega arith) hours (omega (arith, hours)),
      )
      (ap (λ z. some (z, "")) (zone_of-hours false n h whole))

parts-print_pg :
    (m : Moment) → IsMoment m → m.offset % 60 ≡ 0 → parts false short (print_pg m) ≡ some (m, "")
unfolding parts print_pg then_read literal separator
parts-print_pg m h whole =
    let z = hour_zone m.west m.offset in
    let frac = print_nanos m.nanos z in
    let sec = String.◌∷◌ ":" (padded 2 m.second frac) in
    let min = String.◌∷◌ ":" (padded 2 m.minute sec) in
    let hour = String.◌∷◌ " " (padded 2 m.hour min) in
    let day = String.◌∷◌ "-" (padded 2 m.day hour) in
    let month = String.◌∷◌ "-" (padded 2 m.month day) in
    let day_small : m.day < 100 = omega (arith, h.day_high, days_in-le m.month m.year) in
    rw
      (
        fixed-padded 4 m.year month (omega (arith, h.year_digits)),
        in_range-fixed 1 12 m.month day h.month_low h.month_high (omega (arith, h.month_high)),
        fixed-padded 2 m.day hour day_small,
        spaces-padded m.hour min,
        one_or_two-padded m.hour min (omega (arith, h.hour_high)),
        in_range-some 0 23 m.hour min (omega arith) h.hour_high,
        in_range-fixed 0 59 m.minute sec (omega arith) h.minute_high (omega (arith, h.minute_high)),
        in_range-fixed 0 59 m.second frac (omega arith) h.second_high
            (omega (arith, h.second_high)),
        fraction_nanos m.nanos z h.nanos_digits (fraction-hour_zone m.west m.offset)
            (take_digits-hour_zone m.west m.offset),
        zone-hour_zone m.west m.offset h.zone_hours whole,
      )
      refl

not_nil-print_pg : (m : Moment) → is_nil (print_pg m) ≡ false
unfolding print_pg
not_nil-print_pg m = not_nil-padded 4 m.year "-" _

-- The text that PostgreSQL prints for a moment in a zone of whole hours is rendered as RFC 3339 writes that
-- moment.
pub rfc3339-print_pg :
    (m : Moment) → IsMoment m → m.offset % 60 ≡ 0 → rfc3339 (print_pg m) ≡ format_time m
unfolding rfc3339 render parse_time ended_step
rfc3339-print_pg m h whole = rw (not_nil-print_pg m, parts-print_pg m h whole, ended_day m h) refl
