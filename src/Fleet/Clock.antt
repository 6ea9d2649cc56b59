-- ===== src/Fleet/Clock.antt =====
-- The clock of the trips: the ends that the request reports against the times of the trips.

use mobility_api.Base.{
  suc, ◌≤◌, ◌≡◌, refl, ap, true, false, List, [], ◌∷◌, Option, some, none, length, All, All-append,
  is_empty, Bool-cases, inl, inr, arith,
}
use mobility_api.Base.Int.{ℤ, pos, negsuc, is_before}
use mobility_api.Base.Float.{Float}
use mobility_api.Base.Json.{Json}
use mobility_api.Backend.{Value, int, doc}
use mobility_api.Fleet.{sequences}
use mobility_api.Fleet.Trips.{
  TripSeg, Trip, Fleet, add_point, trip_segment, collect, collect_all, with_points,
  parse_trip_segments, first_time, last_time, is_short, with_trip, earlier, later, add_trip,
  add_trips, add_row, fleet_of, no_trips,
}

-- a <= b
unfoldable pub AtMost : ℤ → ℤ → Type 0
AtMost a b = is_before b a ≡ false

AtMost-refl : (a : ℤ) → AtMost a a
unfolding AtMost
AtMost-refl (pos a) = ground arith
AtMost-refl (negsuc a) = ground arith

pub AtMost-trans : (a b c : ℤ) → AtMost a b → AtMost b c → AtMost a c
unfolding AtMost
AtMost-trans (pos a) (pos b) (pos c) h g = ground arith
AtMost-trans (pos a) (pos b) (negsuc c) h g = absurd (cc)
AtMost-trans (pos a) (negsuc b) c h g = absurd (cc)
AtMost-trans (negsuc a) b (pos c) h g = refl
AtMost-trans (negsuc a) (pos b) (negsuc c) h g = absurd (cc)
AtMost-trans (negsuc a) (negsuc b) (negsuc c) h g = ground arith

before-AtMost : (a b : ℤ) → is_before a b ≡ true → AtMost a b
unfolding AtMost
before-AtMost (pos a) (pos b) h = ground arith
before-AtMost (pos a) (negsuc b) h = absurd (cc)
before-AtMost (negsuc a) (pos b) h = refl
before-AtMost (negsuc a) (negsuc b) h = ground arith

other_side : (a b : ℤ) → is_before a b ≡ false → AtMost b a
unfolding AtMost
other_side a b h = h

-- As many times as points.
IsParallel : TripSeg → Type 0
IsParallel seg = length seg.path ≡ length seg.time

add_point-IsParallel :
    (t : Option ℤ) (p : Option (Float × Float)) (seg : TripSeg)
    → IsParallel seg
    → IsParallel (add_point t p seg)
unfolding IsParallel add_point
add_point-IsParallel none p seg h = h
add_point-IsParallel (some t) none seg h = h
add_point-IsParallel (some t) (some p) seg h = ap suc h

trip_segment-IsParallel : (ps : List (Json × Json)) → IsParallel (trip_segment ps)
unfolding trip_segment IsParallel
trip_segment-IsParallel [] = refl
trip_segment-IsParallel ((ts, c) ∷ rest) =
    add_point-IsParallel _ _ (trip_segment rest) (trip_segment-IsParallel rest)

with_points-All :
    (seg : TripSeg) (rest : List TripSeg)
    → IsParallel seg
    → All IsParallel rest
    → All IsParallel (with_points seg rest)
unfolding with_points
with_points-All seg rest p h = elim (Bool-cases (is_empty seg.path)) [
  | inl empty ↦ rw empty h
  | inr other ↦ rw other (p, h)
]

collect_all-All : (ms : List Json) → All IsParallel (collect_all ms)
unfolding collect_all collect
collect_all-All [] = tt
collect_all-All (m ∷ ms) =
    with_points-All (collect m) (collect_all ms) (trip_segment-IsParallel _) (collect_all-All ms)

-- A trip of the clock from `low` to `high`: it has two points or more, a time for each, and begins and ends within
-- the clock.
unfoldable pub IsWithin : ℤ → ℤ → Trip → Type 0
IsWithin low high t =
    (2 ≤ length t.seg.path)
    × (length t.seg.path ≡ length t.seg.time)
    × AtMost low (first_time t.seg.time)
    × AtMost (last_time t.seg.time) high

IsClock : Fleet → Type 0
IsClock f = All (IsWithin f.tmin f.tmax) f.trips

widen :
    (low low' high high' : ℤ) (ts : List Trip)
    → AtMost low' low
    → AtMost high high'
    → All (IsWithin low high) ts
    → All (IsWithin low' high') ts
unfolding IsWithin
widen low low' high high' [] a b h = tt
widen low low' high high' (t ∷ ts) a b ((n, p, l, u), h) = (
  (
    n,
    p,
    AtMost-trans low' low (first_time t.seg.time) a l,
    AtMost-trans (last_time t.seg.time) high high' u b,
  ),
  widen low low' high high' ts a b h,
)

earlier-AtMost : (t low : ℤ) → AtMost (earlier t low) t × AtMost (earlier t low) low
unfolding earlier
earlier-AtMost t low = elim (Bool-cases (is_before t low)) [
  | inl sooner ↦ rw sooner (AtMost-refl t, before-AtMost t low sooner)
  | inr other ↦ rw other (other_side t low other, AtMost-refl low)
]

later-AtMost : (t high : ℤ) → AtMost t (later t high) × AtMost high (later t high)
unfolding later
later-AtMost t high = elim (Bool-cases (is_before high t)) [
  | inl sooner ↦ rw sooner (AtMost-refl t, before-AtMost high t sooner)
  | inr other ↦ rw other (other_side high t other, AtMost-refl high)
]

two_points : (seg : TripSeg) → is_short seg ≡ false → 2 ≤ length seg.path
unfolding is_short
two_points seg h = ground arith

with_trip-IsClock :
    (id : ℤ) (seg : TripSeg) (f : Fleet)
    → 2 ≤ length seg.path
    → IsParallel seg
    → IsClock f
    → IsClock (with_trip id seg f)
unfolding with_trip IsClock IsWithin IsParallel
with_trip-IsClock id seg f n p h =
    let (t_low, f_low) = earlier-AtMost (first_time seg.time) f.tmin in
    let (t_high, f_high) = later-AtMost (last_time seg.time) f.tmax in
    All-append (IsWithin (earlier (first_time seg.time) f.tmin) (later (last_time seg.time) f.tmax))
      f.trips (record { id = id; seg = seg } ∷ []) (widen f.tmin _ f.tmax _ f.trips f_low f_high h)
      ((n, p, t_low, t_high), tt)

add_trip-IsClock :
    (id : ℤ) (seg : TripSeg) (f : Fleet) → IsParallel seg → IsClock f → IsClock (add_trip id seg f)
unfolding add_trip
add_trip-IsClock id seg f p h = elim (Bool-cases (is_short seg)) [
  | inl short ↦ rw short h
  | inr long ↦ rw long (with_trip-IsClock id seg f (two_points seg long) p h)
]

add_trips-IsClock :
    (id : ℤ) (segs : List TripSeg) (f : Fleet)
    → All IsParallel segs
    → IsClock f
    → IsClock (add_trips id segs f)
unfolding add_trips
add_trips-IsClock id [] f p h = h
add_trips-IsClock id (seg ∷ segs) f p h =
    add_trips-IsClock id segs (add_trip id seg f) p.1 (add_trip-IsClock id seg f p.0 h)

add_row-IsClock : (row : List Value) (f : Fleet) → IsClock f → IsClock (add_row row f)
unfolding add_row parse_trip_segments
add_row-IsClock (int id ∷ doc mf ∷ []) f h =
    add_trips-IsClock id (collect_all (sequences mf)) f (collect_all-All (sequences mf)) h
add_row-IsClock _ f h = h

fleet_of-IsClock : (rows : List (List Value)) (f : Fleet) → IsClock f → IsClock (fleet_of rows f)
unfolding fleet_of
fleet_of-IsClock [] f h = h
fleet_of-IsClock (row ∷ rows) f h = fleet_of-IsClock rows (add_row row f) (add_row-IsClock row f h)

-- Whatever rows the database answers, each trip of the response has two points or more and a time for
-- each of them, and its first and its last time lie between the ends of the clock that the response
-- reports.
pub fleet_of-All :
    (rows : List (List Value))
    → All
        (IsWithin (fleet_of rows no_trips).tmin (fleet_of rows no_trips).tmax)
        (fleet_of rows no_trips).trips
unfolding IsClock
fleet_of-All rows = fleet_of-IsClock rows no_trips tt
