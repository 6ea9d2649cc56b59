-- ===== src/ApiDoc/Parameters.antt =====
-- main.go: the operations and the parameters that apiDoc puts together.
use mobility_api.Base.{ℕ, String, false, List, [], ◌∷◌}
use mobility_api.Base.Float.{dec}
use mobility_api.Base.Json.{Json, bool, num, str, object, array, obj, Fields, end, field}

whole : ℕ → Json
whole n = num (dec false n 0 0)

unfoldable pub op : String → Json
op summary = object (
    ("summary", str summary)
    ∷ ("responses", object (("200", object (("description", str "OK") ∷ [])) ∷ []))
    ∷ [])

unfoldable pub get_only : String → Json
unfolding op
get_only summary = object (("get", op summary) ∷ [])

param : String → String → String → Json → Json
param name place desc schema = object (
    ("name", str name)
    ∷ ("in", str place)
    ∷ ("description", str desc)
    ∷ ("required", bool false)
    ∷ ("style", str "form")
    ∷ ("explode", bool false)
    ∷ ("schema", schema)
    ∷ [])

unfoldable pub limit_param : ℕ → ℕ → Json
unfolding param whole
limit_param default max =
    param "limit" "query"
      "The optional limit parameter limits the number of items presented in the response document."
      (object (
        ("type", str "integer")
        ∷ ("minimum", whole 1)
        ∷ ("maximum", whole max)
        ∷ ("default", whole default)
        ∷ []))

unfoldable pub bbox_param : Json
unfolding param whole
bbox_param =
    param "bbox" "query" "Only features whose geometry intersects the bounding box are selected." (
      object (
        ("type", str "array")
        ∷ ("minItems", whole 4)
        ∷ ("maxItems", whole 6)
        ∷ ("items", object (("type", str "number") ∷ []))
        ∷ []))

unfoldable pub datetime_param : Json
unfolding param
datetime_param =
    param "datetime" "query"
      "Either a date-time or an interval. Only features that have a temporal geometry or temporal property that intersects the value are selected."
      (object (("type", str "string") ∷ []))

unfoldable pub leaf_param : Json
unfolding param
leaf_param =
    param "leaf" "query"
      "Only features with a temporal geometry or temporal property that intersect the given date-times are selected. The date-times are given as a comma-separated list."
      (object (
        ("type", str "array")
        ∷ ("items", object (("type", str "string") ∷ ("format", str "date-time") ∷ []))
        ∷ []))

a_flag : Json
a_flag = object (("type", str "boolean") ∷ ("default", bool false) ∷ [])

unfoldable pub sub_trajectory_param : Json
unfolding param a_flag
sub_trajectory_param =
    param "subTrajectory" "query"
      "Only a subsequence of the temporal geometry clipped to the datetime interval is returned. The datetime parameter is then a bounded interval and the leaf parameter is not used."
      a_flag

unfoldable pub sub_temporal_value_param : Json
unfolding param a_flag
sub_temporal_value_param =
    param "subTemporalValue" "query"
      "Only a subsequence of the temporal property clipped to the datetime interval is returned. The datetime parameter is then a bounded interval and the leaf parameter is not used."
      a_flag

-- The object with the member `parameters` behind the others.
with_last : Fields → Json → Fields
with_last end ps = field "parameters" ps end
with_last (field k v fs) ps = field k v (with_last fs ps)

unfoldable pub with_params : Json → List Json → Json
unfolding with_last
with_params (obj fs) ps = obj (with_last fs (array ps))
with_params v ps = v
