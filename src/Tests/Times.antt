-- ===== src/Tests/Times.antt =====
-- Timestamps, and the trips and buckets of a fleet.
use mobility_api.Base.{
  ℕ, zero, suc, ◌≤◌, ◌<◌, arith, String, ◌≡◌, refl, Bool, true, false, List, [], ◌∷◌, Option, none,
  some, length, All, get_elem?,
}
use mobility_api.Base.Int.{pos, negsuc}
use mobility_api.Base.Json.{Json, str, num, object, array}
use mobility_api.Base.Float.{Float}
use mobility_api.Base.Int.{digit}
use mobility_api.Base.Text.{take_digits}
use mobility_api.Timestamp
use mobility_api.Base.Time.{
  Moment, parse_time, z_colon, ended_step, parts, fixed, literal, in_range, separator, spaces,
  one_or_two, fraction, zone, short_zone, sign, days_in, ended, drop_spaces, frac_value, is_leap,
  then_read, with_digits, zone_of, colon_zone,
}
use mobility_api.Base.Time.Print.{format_time, padded, print_nanos, print_zone, trimmed, all_zero}
use mobility_api.Base.Time.ReadBack.{IsMoment}
use mobility_api.Backend.{Value, int, doc}
use mobility_api.Timestamp.{rfc3339}
use mobility_api.Timestamp.Postgres.{print_pg}
use mobility_api.Timestamp.Rendered.{rfc3339-format_time}
use mobility_api.Fleet.Trips.{fleet_of, no_trips}
use mobility_api.Fleet.Clock.{AtMost, IsWithin, fleet_of-All}
use mobility_api.Fleet.Series.{bucket, buckets, index_of, distance}
use mobility_api.Fleet.Buckets.{index_of-bucket}

abbrev evening : Moment
evening = record {
  year = 2011;
  month = 6;
  day = 3;
  hour = 18;
  minute = 57;
  second = 53;
  nanos = 250000000;
  west = false;
  offset = 120;
}

evening-IsMoment : IsMoment evening
unfolding mobility_api.Base.Time.days_in
evening-IsMoment = record {
  year_digits = omega arith;
  month_low = omega arith;
  month_high = omega arith;
  day_low = omega arith;
  day_high = omega arith;
  hour_high = omega arith;
  minute_high = omega arith;
  second_high = omega arith;
  nanos_digits = omega arith;
  zone_hours = omega arith;
}

rfc3339-format_time_example :
    (rfc3339 (print_pg evening) ≡ format_time evening)
    × (parse_time true z_colon (rfc3339 (print_pg evening)) ≡ some evening)
    × (rfc3339 (rfc3339 (print_pg evening)) ≡ rfc3339 (print_pg evening))
rfc3339-format_time_example = rfc3339-format_time evening evening-IsMoment refl

rfc3339_postgres : rfc3339 "2011-06-03 18:57:53+02" ≡ "2011-06-03T18:57:53+02:00"
unfolding rfc3339 Timestamp.render parse_time ended_step parts fixed literal in_range separator
    spaces one_or_two fraction zone short_zone sign format_time padded print_nanos print_zone
    trimmed all_zero days_in ended drop_spaces frac_value is_leap then_read with_digits zone_of
    colon_zone take_digits digit
rfc3339_postgres = refl

abbrev degrees : ℕ → ℕ → Json
degrees lon lat = array (num (Float.dec false lon 0 0) ∷ num (Float.dec false lat 0 0) ∷ [])

abbrev ship_document : Json
ship_document = object (
    ("datetimes", array (str "2011-06-03T18:57:53Z" ∷ str "2011-06-03T18:58:53Z" ∷ []))
    ∷ ("coordinates", array (degrees 11 55 ∷ degrees 12 56 ∷ []))
    ∷ [])

abbrev ship_rows : List (List Value)
ship_rows = (int (pos 1) ∷ doc ship_document ∷ []) ∷ []

fleet_of-All_example :
    All
      (IsWithin (fleet_of ship_rows no_trips).tmin (fleet_of ship_rows no_trips).tmax)
      (fleet_of ship_rows no_trips).trips
fleet_of-All_example = fleet_of-All ship_rows

ship_clock : (fleet_of ship_rows no_trips).tmin ≡ pos 1307127473
unfolding fleet_of mobility_api.Fleet.pairs mobility_api.Fleet.epoch_of parse_time
    mobility_api.Base.Time.ended_step mobility_api.Base.Time.parts mobility_api.Base.Time.fixed
    mobility_api.Ogcify.rfc3339_tz mobility_api.Base.Time.literal mobility_api.Base.Time.in_range
    mobility_api.Base.Time.separator mobility_api.Base.Time.one_or_two
    mobility_api.Base.Time.fraction mobility_api.Base.Time.zone
    mobility_api.Base.Time.Print.unix_time
ship_clock = refl

index_of-bucket_example :
    (i : ℕ) × (index_of (pos 0) (buckets 4 60 (negsuc 59) (pos 120)) ≡ some i)
    × (get_elem? (buckets 4 60 (negsuc 59) (pos 120)) i ≡ some (pos 0))
unfolding AtMost bucket buckets distance
index_of-bucket_example = index_of-bucket 60 (negsuc 70) (pos 7) (pos 130) (omega arith) refl refl
