-- ===== src/Filters.antt =====
-- main.go: the WHERE clause, the temporal expression and the arguments that the OGC query parameters
-- give a request, and the clipping of a temporal expression.
pub mod Interval
pub mod Clip
pub mod Shape
use mathlib.Core.List
use Prim.Native.String.{◌++◌}
use mobility_api.Base.{
  ℕ, ◌+◌, String, Bool, true, false, ◌&&◌, List, [], ◌∷◌, Option, none, some, length, ◌==◌,
  if◌then◌else◌,
}
use mobility_api.Base.Text.{split, join, trim_space, is_nil}
use mobility_api.Base.Int.{ℤ, pos, atoi}
use mobility_api.Base.Float.{parse_float}
use mobility_api.Backend.{Value, int, float, text}
use mobility_api.Http.{Result, ok, err, failed, Query, first}
use Interval.{split_interval, interval_text, placeholder, ◌>>=◌}

-- The conditions and the arguments so far, as `add` extends them.
pub record Where : Type 0 where
  pub conds : List String
  pub args : List Value

abbrev pub add : Where → String → List Value → Where
add w c vs = record { conds = List.◌++◌ w.conds (c ∷ []); args = List.◌++◌ w.args vs }

unfoldable pub after_filter : String → Where → Result Where
after_filter v w = if is_nil v then ok w else elim (atoi v) [
  | none ↦ err (failed "invalid 'after'")
  | some id ↦ ok (add w ("id > " ++ placeholder (length w.args + 1)) (int id ∷ []))
]

parse_floats : List String → Option (List Value)
parse_floats [] = some []
parse_floats (p ∷ ps) = elim (parse_float (trim_space p)) [
  | none ↦ none
  | some f ↦ elim (parse_floats ps) [ none ↦ none | some fs ↦ some (float f ∷ fs) ]
]

-- ST_MakeEnvelope over the five arguments after the first `n`.
envelope : ℕ → String
envelope n =
    "ST_MakeEnvelope("
    ++ (placeholder (n + 1)
        ++ (","
            ++ (placeholder (n + 2)
                ++ (","
                    ++ (placeholder (n + 3)
                        ++ (","
                            ++ (placeholder (n + 4) ++ ("," ++ (placeholder (n + 5) ++ ")")))))))))

bbox_cond : ℕ → String
unfolding envelope
bbox_cond n =
    "trip && stbox(" ++ (envelope n ++ (") AND eintersects(trip, " ++ (envelope n ++ ")")))

bbox_numbers : ℤ → Where → Option (List Value) → Result Where
bbox_numbers srid w none = err (failed "invalid bbox number")
bbox_numbers srid w (some fs) =
    ok (add w (bbox_cond (length w.args)) (List.◌++◌ fs (int srid ∷ [])))

bbox_parts : ℤ → Where → List String → Result Where
bbox_parts srid w (a ∷ b ∷ c ∷ d ∷ []) = bbox_numbers srid w (parse_floats (a ∷ b ∷ c ∷ d ∷ []))
bbox_parts srid w _ = err (failed "bbox must be minx,miny,maxx,maxy")

bbox_filter : ℤ → String → Where → Result Where
unfolding bbox_parts bbox_numbers bbox_cond parse_floats
bbox_filter srid v w = if is_nil v then ok w else bbox_parts srid w (split b',' v)

-- The two spellings of the flag.
subtrajectory : Query → String
subtrajectory q =
    if is_nil (first q "subtrajectory") then first q "subTrajectory" else first q "subtrajectory"

-- The span of the argument that comes next.
abbrev span_expr : ℕ → String
span_expr n = "CAST(" ++ (placeholder (n + 1) ++ " AS tstzspan)")

clipped : Bool → String → Where → Where × String
clipped true span w = (
  record w { conds = List.◌++◌ w.conds (("atTime(trip, " ++ (span ++ ") IS NOT NULL")) ∷ []) },
  "atTime(trip, " ++ (span ++ ")"),
)
clipped false span w = (w, "trip")

datetime_filter : String → String → Where → Result (Where × String)
unfolding clipped
datetime_filter sub dt w = if is_nil dt then ok (w, "trip") else elim (split_interval dt) [
  | none ↦ err (failed "datetime must be start/end (RFC3339)")
  | some (s, e) ↦
      let span = span_expr (length w.args) in
      ok (clipped (sub == "true") span (add w ("trip && " ++ span) (text (interval_text s e) ∷ [])))
]

check_subtrajectory : String → String → Where → Result Where
check_subtrajectory sub dt w =
    if sub == "true" && is_nil dt
    then err (failed "subtrajectory requires a bounded datetime interval")
    else ok w

where_clause : List String → String
where_clause [] = ""
where_clause (c ∷ cs) = "WHERE " ++ join " AND " (c ∷ cs)

pub record Filters : Type 0 where
  pub where_sql : String
  pub tg_expr : String
  pub args : List Value

finish : Where × String → Filters
unfolding where_clause
finish (w, tg) = record { where_sql = where_clause w.conds; tg_expr = tg; args = w.args }

unfoldable pub item_filters : ℤ → Query → Result Filters
unfolding after_filter bbox_filter check_subtrajectory datetime_filter finish subtrajectory
item_filters srid q = do
  keyed ← after_filter (first q "after") (record { conds = []; args = [] })
  boxed ← bbox_filter srid (first q "bbox") keyed
  checked ← check_subtrajectory (subtrajectory q) (first q "datetime") boxed
  found ← datetime_filter (subtrajectory q) (first q "datetime") checked
  ok (finish found)
