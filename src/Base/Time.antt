-- ===== src/Base/Time.antt =====
-- What the tier uses of Go's `time` package: time.Parse for the layouts of a date, a separator, a time
-- of day and a numeric zone, the format RFC3339Nano, and the seconds since 1970. A second is followed
-- by an optional fraction in each of them, of which nanoseconds are kept.
pub mod Print
pub mod Fractions
pub mod ReadBack
use Prim.Native.Char.{code}
use Prim.Native.Nat.{ℕ, zero, suc, ◌+◌, ◌-◌, ◌*◌, ◌%◌, ◌^◌}
use Prim.Native.String.{String}
use mathlib.Core.Bool.{Bool, true, false, not, ◌&&◌, ◌||◌}
use mathlib.Core.Option.{Option, none, some}
use mobility_api.Base.Tests.{leb, eqb, if◌then◌else◌}
use mobility_api.Base.Text.{is_digit, take_digits}

-- `offset` is the distance of the zone from UTC in minutes, to the west or to the east.
pub record Moment : Type 0 where
  pub year : ℕ
  pub month : ℕ
  pub day : ℕ
  pub hour : ℕ
  pub minute : ℕ
  pub second : ℕ
  pub nanos : ℕ
  pub west : Bool
  pub offset : ℕ

-- -07, -07:00 and Z07:00
pub data ZoneForm : Type 0 where
  short : ZoneForm
  colon : ZoneForm
  z_colon : ZoneForm

-- What a step of the parser reads, and the text behind it.
abbrev pub Step : Type 0 → Type 0
Step A = Option (A × String)

module _ {A B : Type 0} where
  unfoldable pub then_read : Step A → (A → String → Step B) → Step B
  then_read none f = none
  then_read (some (a, s)) f = f a s

-- Exactly so many digits, read on from `acc`.
unfoldable pub fixed : ℕ → ℕ → String → Step ℕ
fixed zero acc s = some (acc, s)
fixed (suc k) acc String.[] = none
fixed (suc k) acc (String.◌∷◌ c s) =
    let rest = fixed k (acc * 10 + (code c - b'0')) s in if is_digit (code c) then rest else none

-- One digit or two.
unfoldable pub one_or_two : String → Step ℕ
one_or_two s = elim (fixed 2 0 s) [ some r ↦ some r | none ↦ fixed 1 0 s ]

unfoldable pub literal : ℕ → String → Step (Unit {0})
literal d String.[] = none
literal d (String.◌∷◌ c s) = if eqb (code c) d then some (tt, s) else none

unfoldable pub drop_spaces : String → String
drop_spaces String.[] = ""
drop_spaces (String.◌∷◌ c s) = if eqb (code c) 32 then drop_spaces s else String.◌∷◌ c s

-- A space of a layout stands for a run of spaces.
unfoldable pub spaces : String → Step (Unit {0})
unfolding drop_spaces
spaces String.[] = some (tt, "")
spaces (String.◌∷◌ c s) = if eqb (code c) 32 then some (tt, drop_spaces s) else none

unfoldable pub separator : Bool → String → Step (Unit {0})
separator true = literal b'T'
separator false = spaces

unfoldable pub in_range : ℕ → ℕ → Step ℕ → Step ℕ
in_range lo hi none = none
in_range lo hi (some (n, s)) = if leb lo n && leb n hi then some (n, s) else none

-- The digits of a fraction in units of 1 / 10 ^ k, those behind the k-th ignored.
unfoldable pub frac_value : ℕ → String → ℕ
frac_value zero s = 0
frac_value (suc k) String.[] = 0
frac_value (suc k) (String.◌∷◌ c s) = (code c - b'0') * 10 ^ k + frac_value k s

unfoldable pub with_digits : String → String × String → Step ℕ
with_digits s (String.[], rest) = some (0, s)
with_digits s (String.◌∷◌ c ds, rest) = some (frac_value 9 (String.◌∷◌ c ds), rest)

-- The fraction behind the seconds, if there is one, as nanoseconds.
unfoldable pub fraction : String → Step ℕ
fraction String.[] = some (0, "")
fraction (String.◌∷◌ c s) =
    if eqb (code c) b'.' || eqb (code c) b','
    then with_digits (String.◌∷◌ c s) (take_digits s)
    else some (0, String.◌∷◌ c s)

-- True for a zone to the west.
unfoldable pub sign : String → Step Bool
sign String.[] = none
sign (String.◌∷◌ c s) =
    if eqb (code c) b'+'
    then some (false, s)
    else if eqb (code c) b'-'
    then some (true, s)
    else none

-- An offset of no minutes is that of UTC, whatever its sign.
unfoldable pub zone_of : Bool → ℕ → Bool × ℕ
zone_of west zero = (false, 0)
zone_of west (suc n) = (west, suc n)

unfoldable pub short_zone : String → Step (Bool × ℕ)
unfolding then_read
short_zone s =
    then_read (sign s)
      λ west s. then_read (in_range 0 24 (fixed 2 0 s)) λ hr s. some (zone_of west (hr * 60), s)

unfoldable pub colon_zone : String → Step (Bool × ℕ)
unfolding then_read
colon_zone s = then_read (sign s) λ west s. then_read (in_range 0 24 (fixed 2 0 s)) λ hr s.
    then_read (literal b':' s)
      λ _ s. then_read (in_range 0 60 (fixed 2 0 s)) λ mm s. some (zone_of west (hr * 60 + mm), s)

unfoldable pub zone : ZoneForm → String → Step (Bool × ℕ)
zone short s = short_zone s
zone colon s = colon_zone s
zone z_colon String.[] = none
zone z_colon (String.◌∷◌ c s) =
    if eqb (code c) b'Z' then some ((false, 0), s) else colon_zone (String.◌∷◌ c s)

unfoldable pub is_leap : ℕ → Bool
is_leap y = eqb (y % 4) 0 && (not (eqb (y % 100) 0) || eqb (y % 400) 0)

-- daysIn
unfoldable pub days_in : ℕ → ℕ → ℕ
unfolding is_leap
days_in month year =
    if eqb month 2
    then (if is_leap year then 29 else 28)
    else if eqb month 4 || eqb month 6 || eqb month 9 || eqb month 11
    then 30
    else 31

-- The whole text is read, and the day is one of the month.
unfoldable pub ended : Moment × String → Option Moment
unfolding days_in
ended (m, String.[]) = if leb 1 m.day && leb m.day (days_in m.month m.year) then some m else none
ended (m, String.◌∷◌ c s) = none

unfoldable pub ended_step : Step Moment → Option Moment
unfolding ended
ended_step none = none
ended_step (some r) = ended r

unfoldable pub parts : Bool → ZoneForm → String → Step Moment
unfolding then_read
parts with_t form s = then_read (fixed 4 0 s) λ year s. then_read (literal b'-' s) λ _ s.
    then_read (in_range 1 12 (fixed 2 0 s)) λ month s. then_read (literal b'-' s) λ _ s.
      then_read (fixed 2 0 s) λ day s. then_read (separator with_t s) λ _ s.
        then_read (in_range 0 23 (one_or_two s)) λ hour s. then_read (literal b':' s) λ _ s.
          then_read (in_range 0 59 (fixed 2 0 s)) λ minute s. then_read (literal b':' s) λ _ s.
            then_read (in_range 0 59 (fixed 2 0 s)) λ second s. then_read (fraction s) λ nanos s.
              then_read (zone form s) λ z s. some (
                record {
                  year = year;
                  month = month;
                  day = day;
                  hour = hour;
                  minute = minute;
                  second = second;
                  nanos = nanos;
                  west = z.0;
                  offset = z.1;
                },
                s,
              )

-- time.Parse; `with_t` says that the separator of the layout is T and not a space.
unfoldable pub parse_time : Bool → ZoneForm → String → Option Moment
parse_time with_t form s = ended_step (parts with_t form s)
