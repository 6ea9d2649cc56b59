-- ===== src/Fleet/Trips.antt =====
-- trajectories.go: the segments of the trajectories, and the request for those of a collection.
use Prim.Native.String.{◌++◌}
use mathlib.Core.List
use mobility_api.Base.{
  ◌+◌, ◌-◌, ◌*◌, ◌/◌, ◌^◌, ltb, leb, String, Bool, false, List, [], ◌∷◌, Option, none, some, length,
  map, is_empty, if◌then◌else◌,
}
use mobility_api.Base.Int.{ℤ, pos, negsuc, max_int64, is_before, atoi}
use mobility_api.Base.Float.{Float, dec, inf, nan}
use mobility_api.Base.Json.{Json, num, object, array, member, arr_of}
use mobility_api.Backend.{Value, int, doc, Rows, Backend}
use mobility_api.Http.{
  Result, ok, err, Response, write_json, Outcome, go, done, Handler, pure, Query, first, ◌>>=◌,
}
use mobility_api.Store.{ident, require_collection, server_error}
use mobility_api.Fleet.{num_int, epoch_of, pairs, sequences}

-- tripSeg
pub record TripSeg : Type 0 where
  pub path : List (Float × Float)
  pub time : List ℤ

-- math.Round(x*1e5) / 1e5 on the exact decimal.
unfoldable round_5 : Float → Float
round_5 (dec s m a b) =
    if leb b 5 then dec s m a b else dec s ((m * 10 ^ a + 5 * 10 ^ (b - 6)) / 10 ^ (b - 5)) 0 5
round_5 (inf s) = inf s
round_5 nan = nan

-- v.(float64), or 0
number_or_zero : Json → Float
number_or_zero (num x) = x
number_or_zero v = dec false 0 0 0

-- The coordinates of an instant, if there are two.
point_of : List Json → Option (Float × Float)
unfolding round_5 number_or_zero
point_of (lon ∷ lat ∷ rest) = some (round_5 (number_or_zero lon), round_5 (number_or_zero lat))
point_of _ = none

abbrev no_points : TripSeg
no_points = record { path = []; time = [] }

unfoldable pub add_point : Option ℤ → Option (Float × Float) → TripSeg → TripSeg
add_point (some t) (some p) seg = record { path = p ∷ seg.path; time = t ∷ seg.time }
add_point _ _ seg = seg

-- The instants that have a time and a point, in order.
unfoldable pub trip_segment : List (Json × Json) → TripSeg
unfolding point_of add_point
trip_segment [] = no_points
trip_segment ((ts, c) ∷ rest) = add_point (epoch_of ts) (point_of (arr_of c)) (trip_segment rest)

unfoldable pub collect : Json → TripSeg
unfolding trip_segment
collect m = trip_segment (pairs (arr_of (member "datetimes" m)) (arr_of (member "coordinates" m)))

unfoldable pub with_points : TripSeg → List TripSeg → List TripSeg
with_points seg rest = if is_empty seg.path then rest else seg ∷ rest

unfoldable pub collect_all : List Json → List TripSeg
unfolding collect with_points
collect_all [] = []
collect_all (m ∷ ms) = with_points (collect m) (collect_all ms)

-- parseTripSegments
unfoldable pub parse_trip_segments : Json → List TripSeg
unfolding sequences collect_all
parse_trip_segments d = collect_all (sequences d)

pub record Trip : Type 0 where
  pub id : ℤ
  pub seg : TripSeg

-- The trips so far, and the ends of the clock over them.
pub record Fleet : Type 0 where
  pub trips : List Trip
  pub tmin : ℤ
  pub tmax : ℤ

abbrev pub no_trips : Fleet
no_trips = record { trips = []; tmin = pos max_int64; tmax = negsuc max_int64 }

unfoldable pub first_time : List ℤ → ℤ
first_time [] = pos 0
first_time (t ∷ ts) = t

unfoldable pub last_time : List ℤ → ℤ
last_time [] = pos 0
last_time (t ∷ []) = t
last_time (t ∷ u ∷ ts) = last_time (u ∷ ts)

unfoldable pub earlier : ℤ → ℤ → ℤ
earlier t low = if is_before t low then t else low

unfoldable pub later : ℤ → ℤ → ℤ
later t high = if is_before high t then t else high

unfoldable pub is_short : TripSeg → Bool
is_short seg = ltb (length seg.path) 2

unfoldable pub with_trip : ℤ → TripSeg → Fleet → Fleet
unfolding first_time last_time earlier later
with_trip id seg f = record {
  trips = List.◌++◌ f.trips (record { id = id; seg = seg } ∷ []);
  tmin = earlier (first_time seg.time) f.tmin;
  tmax = later (last_time seg.time) f.tmax;
}

-- A segment of one point is left out.
unfoldable pub add_trip : ℤ → TripSeg → Fleet → Fleet
unfolding is_short with_trip
add_trip id seg f = if is_short seg then f else with_trip id seg f

unfoldable pub add_trips : ℤ → List TripSeg → Fleet → Fleet
unfolding add_trip
add_trips id [] f = f
add_trips id (seg ∷ segs) f = add_trips id segs (add_trip id seg f)

-- A row that does not scan, or has no document, is passed over.
unfoldable pub add_row : List Value → Fleet → Fleet
unfolding add_trips parse_trip_segments
add_row (int id ∷ doc mf ∷ []) f = add_trips id (parse_trip_segments mf) f
add_row _ f = f

unfoldable pub fleet_of : List (List Value) → Fleet → Fleet
unfolding add_row
fleet_of [] f = f
fleet_of (row ∷ rows) f = fleet_of rows (add_row row f)

trip_json : Trip → Json
unfolding num_int
trip_json t = object (
    ("id", num_int t.id)
    ∷ ("path", array (map (λ p. array (num p.0 ∷ num p.1 ∷ [])) t.seg.path))
    ∷ ("timestamps", array (map num_int t.seg.time))
    ∷ [])

at_least : ℤ → ℤ → Option ℤ → ℤ
at_least low default none = default
at_least low default (some n) = if is_before n low then default else n

sample_of : Query → ℤ
unfolding at_least
sample_of q = at_least (pos 10) (pos 180) (atoi (first q "sample"))

fleet_json : ℤ → Fleet → Json
unfolding trip_json num_int
fleet_json sample f = object (
    ("trips", array (map trip_json f.trips))
    ∷ ("tmin", num_int f.tmin)
    ∷ ("tmax", num_int f.tmax)
    ∷ ("sampleSeconds", num_int sample)
    ∷ [])

trips_sql : String → String
trips_sql tbl =
    "SELECT id, asMFJSON(transform(tsample(trip, make_interval(secs => $1)), 4326)) FROM "
    ++ (ident tbl ++ " WHERE numInstants(tsample(trip, make_interval(secs => $1))) > 1 ORDER BY id")

with_rows : ℤ → Result Rows → Outcome Response
unfolding fleet_of fleet_json
with_rows sample (err e) = done (server_error e)
with_rows sample (ok r) = elim r.failure [
  | some e ↦ done (server_error e)
  | none ↦ go (write_json 200 (fleet_json sample (fleet_of r.rows no_trips)))
]

module _ {S T : Type 0} (db : Backend S T) where
  -- The settings of the transaction, whose errors are not looked at.
  settings : T → T
  settings t =
      (db.tx_exec (db.tx_exec t "SET LOCAL timezone = 'UTC'" []).1
        "SET LOCAL datestyle = 'ISO, YMD'" []).1

  -- The transaction is rolled back by the deferred call, whatever the answer is.
  unfoldable in_settings : ℤ → String → Result T → Handler S Response
  unfolding settings with_rows trips_sql
  in_settings sample tbl (err e) s = (done (server_error e), s)
  in_settings sample tbl (ok t) s = (
    with_rows sample (db.tx_query (settings t) (trips_sql tbl) (int sample ∷ [])),
    db.rollback (settings t) s,
  )

  unfoldable pub trajectories : String → Query → Handler S Response
  unfolding in_settings sample_of
  trajectories cid q = do
    (tbl, srid) ← require_collection db cid
    begun ← λ s. pure (db.begin s) s
    in_settings (sample_of q) tbl begun
