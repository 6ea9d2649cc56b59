-- ===== src/Tests/Documents.antt =====
-- Documents, tokens and filters at concrete inputs.
use Prim.Native.String.{◌++◌}
use mobility_api.Base.{
  ℕ, String, ◌≡◌, refl, ◌⊎◌, List, [], ◌∷◌, Option, none, some, inl, inr, length, true, arith,
}
use mobility_api.Base.Int.{ℤ, pos, negsuc}
use mobility_api.Backend.{int, text}
use mobility_api.Base.Json.{Json, bool, str, object, array, as_arr, member}
use mobility_api.Http.{ok, Query, first}
use mobility_api.Interp.{mdb_interp}
use mobility_api.PropType.{TType, tprop_type}
use mobility_api.PropType.Tokens.{ReadsBack, tprop_type-ReadsBack}
use mobility_api.Document.{tprop_mfjson}
use mobility_api.Document.Total.{IsStorable, tprop_type-IsStorable}
use mobility_api.Filters.{Filters, item_filters}
use mobility_api.Filters.Shape.{shape, is_numbered, item_filters-numbered, item_filters_same_sql}

abbrev big_integer : TType
big_integer = record {
  mf = "MovingBigInteger";
  col = "vbigint";
  cast = "tbigint";
  ogc = "TInteger";
  def_interp = "Step";
}

bigint_named : tprop_type "bigint" ≡ some big_integer
unfolding tprop_type mobility_api.PropType.tprop_tokens mobility_api.Base.Text.trim_space
bigint_named = refl

tprop_type-ReadsBack_example : ReadsBack big_integer
tprop_type-ReadsBack_example = tprop_type-ReadsBack "bigint" bigint_named

abbrev one_segment : Json
one_segment = object (
    ("datetimes", array (str "2011-06-03T18:57:53Z" ∷ []))
    ∷ ("values", array (str "a" ∷ []))
    ∷ ("interpolation", str "Discrete")
    ∷ [])

abbrev in_sequence : Json
in_sequence = object (("valueSequence", array (one_segment ∷ [])) ∷ [])

abbrev text_type : TType
text_type = record {
  mf = "MovingText";
  col = "vtext";
  cast = "ttext";
  ogc = "TText";
  def_interp = "Discrete";
}

ttext_named : tprop_type "TText" ≡ some text_type
unfolding tprop_type mobility_api.PropType.tprop_tokens mobility_api.Base.Text.trim_space
ttext_named = refl

abbrev stored : Json
stored = object (
    ("type", str "MovingText")
    ∷ ("datetimes", array (str "2011-06-03T18:57:53Z" ∷ []))
    ∷ ("values", array (str "a" ∷ []))
    ∷ ("interpolation", str "Discrete")
    ∷ ("lower_inc", bool true)
    ∷ ("upper_inc", bool true)
    ∷ [])

in_sequence_rendered : tprop_mfjson "MovingText" "Discrete" in_sequence ≡ ok stored
unfolding tprop_mfjson mobility_api.Base.Json.depth mdb_interp
in_sequence_rendered = refl

tprop_type-IsStorable_example : IsStorable "MovingText" stored
tprop_type-IsStorable_example =
    tprop_type-IsStorable "TText" text_type in_sequence stored ttext_named in_sequence_rendered

abbrev moved : String → String → Query
moved after datetime =
    ("after", after ∷ []) ∷ ("datetime", datetime ∷ []) ∷ ("subtrajectory", "true" ∷ []) ∷ []

abbrev filters_of : ℕ → String → Filters
filters_of after interval = record {
  where_sql =
      "WHERE id > $1 AND trip && CAST($2 AS tstzspan) AND atTime(trip, CAST($2 AS tstzspan)) IS NOT NULL";
  tg_expr = "atTime(trip, CAST($2 AS tstzspan))";
  args = int (pos after) ∷ text interval ∷ [];
}

first_filters : item_filters (pos 4326) (moved "7" "a/b") ≡ ok (filters_of 7 "[a, b]")
unfolding item_filters first mobility_api.Base.Int.atoi mobility_api.Filters.Interval.split_interval
    mobility_api.Base.Text.cut mobility_api.Base.Int.itoa
first_filters = refl

second_filters : item_filters (pos 25832) (moved "8" "c/d") ≡ ok (filters_of 8 "[c, d]")
unfolding item_filters first mobility_api.Base.Int.atoi mobility_api.Filters.Interval.split_interval
    mobility_api.Base.Text.cut mobility_api.Base.Int.itoa
second_filters = refl

item_filters-numbered_example :
    is_numbered 2 ((filters_of 7 "[a, b]").where_sql ++ (filters_of 7 "[a, b]").tg_expr) ≡ true
item_filters-numbered_example =
    item_filters-numbered (pos 4326) (moved "7" "a/b") (filters_of 7 "[a, b]") first_filters

same_shape : shape (moved "7" "a/b") ≡ shape (moved "8" "c/d")
unfolding shape first
same_shape = refl

item_filters_same_sql_example :
    ((filters_of 7 "[a, b]").where_sql ≡ (filters_of 8 "[c, d]").where_sql)
    × ((filters_of 7 "[a, b]").tg_expr ≡ (filters_of 8 "[c, d]").tg_expr)
    × (length (filters_of 7 "[a, b]").args ≡ length (filters_of 8 "[c, d]").args)
item_filters_same_sql_example =
    item_filters_same_sql (pos 4326) (pos 25832) (moved "7" "a/b") (moved "8" "c/d")
      (filters_of 7 "[a, b]") (filters_of 8 "[c, d]") same_shape first_filters second_filters
