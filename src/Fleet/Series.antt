-- ===== src/Fleet/Series.antt =====
-- timeseries.go: the averages of the property `speed` by the type of the ship and by time.
use Prim.Native.String.{◌++◌}
use mathlib.Core.List
use mobility_api.Base.{
  ℕ, zero, suc, ◌+◌, ◌-◌, ◌%◌, ◌^◌, ltb, eqb, String, Bool, false, List, [], ◌∷◌, Option, none,
  some, map, ◌==◌, if◌then◌else◌,
}
use mobility_api.Base.Text.{is_nil}
use mobility_api.Base.Int.{ℤ, pos, negsuc, is_before, plus, minus, atoi}
use mobility_api.Base.Float.{Float, dec}
use mobility_api.Base.Json.{Json, null, num, str, object, array, member, arr_of}
use mobility_api.Backend.{Value, text, doc, int, Rows, Backend, db_query}
use mobility_api.Http.{
  Response, write_json, Outcome, go, done, Handler, or_respond, Query, first, ◌>>=◌,
}
use mobility_api.Store.{ident, require_collection, server_error}
use mobility_api.Stream.{text_le}
use mobility_api.Codegen.{sort}
use mobility_api.Fleet.{num_int, epoch_of, pairs, sequences}

-- The addition of float64 and its division by a count.
pub record Arithmetic : Type 0 where
  pub plus : Float → Float → Float
  pub over : Float → ℕ → Float

as_number : Json → Option Float
as_number (num x) = some x
as_number v = none

add_value : Option ℤ → Option Float → List (ℤ × Float) → List (ℤ × Float)
add_value (some t) (some v) rest = (t, v) ∷ rest
add_value _ _ rest = rest

-- The instants that have a time and a number, in order.
unfoldable pub instants : List (Json × Json) → List (ℤ × Float)
unfolding as_number add_value
instants [] = []
instants ((ts, v) ∷ rest) = add_value (epoch_of ts) (as_number v) (instants rest)

all_instants : List Json → List (ℤ × Float)
unfolding instants
all_instants [] = []
all_instants (m ∷ ms) =
    List.◌++◌ (instants (pairs (arr_of (member "datetimes" m)) (arr_of (member "values" m))))
      (all_instants ms)

-- parseFloatSeries
unfoldable parse_float_series : Json → List (ℤ × Float)
unfolding all_instants sequences
parse_float_series d = all_instants (sequences d)

-- t - t % step, with a remainder that has the sign of t.
unfoldable pub bucket : ℕ → ℤ → ℤ
unfolding minus
bucket step (pos n) = pos (n - n % step)
bucket step (negsuc n) = minus 0 (suc n - suc n % step)

-- acc
pub record Acc : Type 0 where
  pub sum : Float
  pub n : ℕ

unfoldable pub eq_int : ℤ → ℤ → Bool
eq_int (pos a) (pos b) = eqb a b
eq_int (pos a) (negsuc b) = false
eq_int (negsuc a) (pos b) = false
eq_int (negsuc a) (negsuc b) = eqb a b

-- The accumulators of one type by their buckets, and those of each type.
abbrev Row : Type 0
Row = List (ℤ × Acc)

abbrev Data : Type 0
Data = List (String × Row)

module _ (ops : Arithmetic) where
  bump : Float → Acc → Acc
  bump v a = record { sum = ops.plus a.sum v; n = suc a.n }

  unfoldable accumulate : ℤ → Float → Row → Row
  unfolding bump eq_int
  accumulate b v [] = (b, bump v (record { sum = dec false 0 0 0; n = 0 })) ∷ []
  accumulate b v ((c, a) ∷ row) =
      let rest = accumulate b v row in if eq_int c b then (c, bump v a) ∷ row else (c, a) ∷ rest

  unfoldable accumulate_all : ℕ → List (ℤ × Float) → Row → Row
  unfolding accumulate bucket
  accumulate_all step [] row = row
  accumulate_all step ((t, v) ∷ ps) row = accumulate_all step ps (accumulate (bucket step t) v row)

  unfoldable at_type : String → ℕ → List (ℤ × Float) → Data → Data
  unfolding accumulate_all
  at_type t step ps [] = (t, accumulate_all step ps []) ∷ []
  at_type t step ps ((u, row) ∷ data') =
      let rest = at_type t step ps data' in
      if u == t then (u, accumulate_all step ps row) ∷ data' else (u, row) ∷ rest

-- The ends of the buckets so far.
pub record Span : Type 0 where
  pub tmin : ℤ
  pub tmax : ℤ

unfoldable widened : ℕ → List (ℤ × Float) → Span → Span
unfolding bucket
widened step [] s = s
widened step ((t, v) ∷ ps) s =
    let b = bucket step t in
    widened step ps (record {
      tmin = if is_before b s.tmin then b else s.tmin;
      tmax = if is_before s.tmax b then b else s.tmax;
    })

type_of : String → String
type_of t = if is_nil t then "Other" else t

module _ (ops : Arithmetic) (step : ℕ) where
  -- A row that does not scan, or has no document, is passed over.
  add_series : List Value → Data × Span → Data × Span
  unfolding type_of at_type widened parse_float_series
  add_series (text t ∷ doc mf ∷ []) (d, s) = (
    at_type ops (type_of t) step (parse_float_series mf) d,
    widened step (parse_float_series mf) s,
  )
  add_series (Value.null ∷ doc mf ∷ []) (d, s) =
      (at_type ops "Other" step (parse_float_series mf) d, widened step (parse_float_series mf) s)
  add_series _ r = r

  unfoldable gather : List (List Value) → Data × Span → Data × Span
  unfolding add_series
  gather [] r = r
  gather (row ∷ rows) r = gather rows (add_series row r)

-- for b := tmin; b <= tmax; b += step; the fuel bounds the rounds.
unfoldable pub buckets : ℕ → ℕ → ℤ → ℤ → List ℤ
unfolding plus
buckets zero step b tmax = []
buckets (suc fuel) step b tmax =
    let rest = buckets fuel step (plus b step) tmax in if is_before tmax b then [] else b ∷ rest

-- idx, where a missing key reads as 0.
unfoldable pub index_of : ℤ → List ℤ → Option ℕ
unfolding eq_int
index_of b [] = none
index_of b (c ∷ cs) =
    let rest = index_of b cs in
    if eq_int c b then some zero else elim rest [ none ↦ none | some i ↦ some (suc i) ]

or_zero : Option ℕ → ℕ
or_zero none = 0
or_zero (some i) = i

unfoldable set_at : ℕ → Float → List (Option Float) → List (Option Float)
set_at i v [] = []
set_at zero v (x ∷ xs) = some v ∷ xs
set_at (suc i) v (x ∷ xs) = x ∷ set_at i v xs

unfoldable series_row : Arithmetic → List ℤ → Row → List (Option Float) → List (Option Float)
unfolding index_of or_zero set_at
series_row ops bs [] out = out
series_row ops bs ((b, a) ∷ row) out =
    let rest = series_row ops bs row out in
    if ltb 0 a.n
    then series_row ops bs row (set_at (or_zero (index_of b bs)) (ops.over a.sum a.n) out)
    else rest

float_or_null : Option Float → Json
float_or_null none = null
float_or_null (some v) = num v

-- b - a, where a <= b.
unfoldable pub distance : ℤ → ℤ → ℕ
distance (pos a) (pos b) = b - a
distance (pos a) (negsuc b) = 0
distance (negsuc a) (pos b) = b + suc a
distance (negsuc a) (negsuc b) = a - b

empty_row : List ℤ → List (Option Float)
empty_row [] = []
empty_row (b ∷ bs) = none ∷ empty_row bs

series_json : Arithmetic → List ℤ → Data → Json
unfolding series_row float_or_null empty_row sort text_le
series_json ops bs d = object (
    map (λ e. (e.0, array (map float_or_null (series_row ops bs e.1 (empty_row bs)))))
      (sort (λ a b. text_le a.0 b.0) d))

answer : Arithmetic → ℕ → Data × Span → Json
unfolding num_int buckets distance series_json
answer ops step (d, s) =
    let bs = buckets (suc (distance s.tmin s.tmax)) step s.tmin s.tmax in
    object (
      ("uom", str "kn")
      ∷ ("stepSeconds", num_int (pos step))
      ∷ ("buckets", array (if is_before s.tmax s.tmin then [] else map num_int bs))
      ∷ ("series", if is_before s.tmax s.tmin then object [] else series_json ops bs d)
      ∷ [])

at_least_60 : Option ℤ → ℕ
at_least_60 (some (pos n)) = if ltb n 60 then 600 else n
at_least_60 _ = 600

unfoldable step_of : Query → ℕ
unfolding at_least_60
step_of q = at_least_60 (atoi (first q "step"))

abbrev no_series : Data × Span
no_series = ([], record { tmin = pos (2 ^ 62 - 1); tmax = negsuc (2 ^ 62 - 1) })

with_series : Arithmetic → ℕ → Rows → Outcome Response
unfolding gather answer
with_series ops step r = elim r.failure [
  | some e ↦ done (server_error e)
  | none ↦ go (write_json 200 (answer ops step (gather ops step r.rows no_series)))
]

module _ {S T : Type 0} (db : Backend S T) (ops : Arithmetic) where
  unfoldable pub timeseries : String → Query → Handler S Response
  unfolding with_series step_of
  timeseries cid q = do
    (tbl, srid) ← require_collection db cid
    found ←
        db_query db
          ("SELECT COALESCE(s.ship_type, 'Other'), asMFJSON(tsample(p.vfloat, make_interval(secs => $2))) FROM "
            ++ (ident tbl
                ++ " s JOIN mf_tproperty p ON p.cid = $1 AND p.fid = s.id AND p.name = 'speed'"))
          (text cid ∷ int (pos (step_of q)) ∷ [])
    rows ← or_respond found server_error
    λ s. (with_series ops (step_of q) rows, s)
