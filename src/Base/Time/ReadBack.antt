-- ===== src/Base/Time/ReadBack.antt =====
-- A time that is printed is read back by the layout that it is printed in.
use Prim.Native.Char.{Char}
use Prim.Native.Nat.{ℕ, zero, suc, ◌+◌, ◌*◌, ◌/◌, ◌%◌, ◌<◌, ◌≤◌}
use Prim.Native.String.{String}
use mathlib.Core.Path.{◌≡◌, refl, ap, ◌∙◌}
use mathlib.Core.Bool.{Bool, true, false}
use mathlib.Core.Option.{none, some}
use native.Mathlib.Omega.{arith}
use mobility_api.Base.Tests.{leb}
use mobility_api.Base.Time.{
  Moment, ZoneForm, z_colon, Step, then_read, fixed, literal, in_range, sign, zone_of, colon_zone,
  zone, days_in, parse_time, parts, ended, ended_step, separator, spaces,
}
use mobility_api.Base.Time.Print.{padded, print_nanos, print_zone, format_time}
use mobility_api.Base.Time.Fractions.{
  fixed-padded, in_range-some, one_or_two-padded, fraction-print_nanos,
}

-- An offset that is printed with at most 24 hours, and none as UTC.
abbrev pub IsOffset : Bool → ℕ → Type 0
IsOffset west zero = west ≡ false
IsOffset west (suc n) = suc n < 1500

pub in_range-fixed :
    (lo hi n : ℕ) (out : String)
    → lo ≤ n
    → n ≤ hi
    → n < 100
    → in_range lo hi (fixed 2 0 (padded 2 n out)) ≡ some (n, out)
in_range-fixed lo hi n out a b h =
    ap (in_range lo hi) (fixed-padded 2 n out h) ∙ in_range-some lo hi n out a b

colon_zone-padded :
    (c : Char) (west : Bool) (hr mm : ℕ)
    → ((s : String) → sign (String.◌∷◌ c s) ≡ some (west, s))
    → hr ≤ 24
    → mm < 60
    → colon_zone (String.◌∷◌ c (padded 2 hr (String.◌∷◌ ":" (padded 2 mm ""))))
      ≡ some (zone_of west (hr * 60 + mm), "")
unfolding colon_zone then_read literal
colon_zone-padded c west hr mm signed a b =
    rw
      (
        signed (padded 2 hr (String.◌∷◌ ":" (padded 2 mm ""))),
        in_range-fixed 0 24 hr (String.◌∷◌ ":" (padded 2 mm "")) (omega arith) a (omega (arith, a)),
        in_range-fixed 0 60 mm "" (omega arith) (omega (arith, b)) (omega (arith, b)),
      )
      refl

pub sign_minus : (s : String) → sign (String.◌∷◌ "-" s) ≡ some (true, s)
unfolding sign
sign_minus s = refl

pub sign_plus : (s : String) → sign (String.◌∷◌ "+" s) ≡ some (false, s)
unfolding sign
sign_plus s = refl

zone_of-suc : (west : Bool) (n : ℕ) → zone_of west (suc n / 60 * 60 + suc n % 60) ≡ (west, suc n)
unfolding zone_of
zone_of-suc west n = let e : suc n / 60 * 60 + suc n % 60 ≡ suc n = omega arith in rw e refl

pub zone-print_zone :
    (west : Bool) (n : ℕ)
    → IsOffset west n
    → zone z_colon (print_zone west n) ≡ some ((west, n), "")
unfolding zone print_zone
zone-print_zone west zero h = rw h refl
zone-print_zone true (suc n) h =
    colon_zone-padded "-" true (suc n / 60) (suc n % 60) (λ s. sign_minus s) (omega (arith, h))
      (omega arith)
    ∙ ap (λ z. some (z, "")) (zone_of-suc true n)
zone-print_zone false (suc n) h =
    colon_zone-padded "+" false (suc n / 60) (suc n % 60) (λ s. sign_plus s) (omega (arith, h))
      (omega arith)
    ∙ ap (λ z. some (z, "")) (zone_of-suc false n)

-- A moment of the calendar, in a zone that is printed in at most 24 hours.
pub record IsMoment (m : Moment) : Type 0 where
  pub year_digits : m.year < 10000
  pub month_low : 1 ≤ m.month
  pub month_high : m.month ≤ 12
  pub day_low : 1 ≤ m.day
  pub day_high : m.day ≤ days_in m.month m.year
  pub hour_high : m.hour ≤ 23
  pub minute_high : m.minute ≤ 59
  pub second_high : m.second ≤ 59
  pub nanos_digits : m.nanos < 1000000000
  pub zone_hours : IsOffset m.west m.offset

leb-true : {a b : ℕ} → a ≤ b → leb a b ≡ true
leb-true h = ground arith

pub days_in-le : (month year : ℕ) → days_in month year ≤ 31
unfolding days_in
days_in-le month year = ground arith

-- The moment with the zone that is read last.
unfoldable pub in_zone : Moment → Bool × ℕ → String → Step Moment
in_zone m z s = some (record m { west = z.0; offset = z.1 }, s)

pub parts-format_time :
    (form : ZoneForm) (m : Moment)
    → IsMoment m
    → parts true form (format_time m)
      ≡ then_read (zone form (print_zone m.west m.offset)) (in_zone m)
unfolding parts format_time then_read literal separator in_zone
parts-format_time form m h =
    let z = print_zone m.west m.offset in
    let frac = print_nanos m.nanos z in
    let sec = String.◌∷◌ ":" (padded 2 m.second frac) in
    let min = String.◌∷◌ ":" (padded 2 m.minute sec) in
    let hour = String.◌∷◌ "T" (padded 2 m.hour min) in
    let day = String.◌∷◌ "-" (padded 2 m.day hour) in
    let month = String.◌∷◌ "-" (padded 2 m.month day) in
    let day_small : m.day < 100 = omega (arith, h.day_high, days_in-le m.month m.year) in
    rw
      (
        fixed-padded 4 m.year month (omega (arith, h.year_digits)),
        in_range-fixed 1 12 m.month day h.month_low h.month_high (omega (arith, h.month_high)),
        fixed-padded 2 m.day hour day_small,
        one_or_two-padded m.hour min (omega (arith, h.hour_high)),
        in_range-some 0 23 m.hour min (omega arith) h.hour_high,
        in_range-fixed 0 59 m.minute sec (omega arith) h.minute_high (omega (arith, h.minute_high)),
        in_range-fixed 0 59 m.second frac (omega arith) h.second_high
            (omega (arith, h.second_high)),
        fraction-print_nanos m.nanos m.west m.offset h.nanos_digits,
      )
      refl

parts-z_colon : (m : Moment) → IsMoment m → parts true z_colon (format_time m) ≡ some (m, "")
unfolding then_read in_zone
parts-z_colon m h =
    parts-format_time z_colon m h
    ∙ ap (λ r. then_read r (in_zone m)) (zone-print_zone m.west m.offset h.zone_hours)

-- A layout with a space takes no text with a T.
pub parts_no_space :
    (form : ZoneForm) (m : Moment) → IsMoment m → parts false form (format_time m) ≡ none
unfolding parts format_time then_read literal separator spaces
parts_no_space form m h =
    let min = String.◌∷◌ ":" (
      padded 2 m.minute
        (String.◌∷◌ ":" (padded 2 m.second (print_nanos m.nanos (print_zone m.west m.offset))))) in
    let hour = String.◌∷◌ "T" (padded 2 m.hour min) in
    let day = String.◌∷◌ "-" (padded 2 m.day hour) in
    let month = String.◌∷◌ "-" (padded 2 m.month day) in
    let day_small : m.day < 100 = omega (arith, h.day_high, days_in-le m.month m.year) in
    rw
      (
        fixed-padded 4 m.year month (omega (arith, h.year_digits)),
        in_range-fixed 1 12 m.month day h.month_low h.month_high (omega (arith, h.month_high)),
        fixed-padded 2 m.day hour day_small,
      )
      refl

pub ended_day : (m : Moment) → IsMoment m → ended (m, "") ≡ some m
unfolding ended
ended_day m h = rw (leb-true h.day_low, leb-true h.day_high) refl

-- A moment of the calendar is printed so that time.Parse with the layout RFC3339 gives it back.
pub parse_time-format_time :
    (m : Moment) → IsMoment m → parse_time true z_colon (format_time m) ≡ some m
unfolding parse_time ended_step ended
parse_time-format_time m h = rw (parts-z_colon m h) (ended_day m h)
