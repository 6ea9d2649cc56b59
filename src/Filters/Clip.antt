-- ===== src/Filters/Clip.antt =====
-- main.go: the clipping of a temporal expression by the leaf, datetime and sub-resource parameters.
use Prim.Native.String.{◌++◌}
use mathlib.Core.List
use mobility_api.Base.{
  String, Bool, ◌&&◌, not, List, [], ◌∷◌, none, some, length, ◌==◌, if◌then◌else◌,
}
use mobility_api.Base.Text.{split, join, trim_space, is_nil, contains, to_lower}
use mobility_api.Backend.{Value, text}
use mobility_api.Http.{Result, ok, err, failed, Query, first}
use mobility_api.Filters.Interval.{split_interval, interval_text, placeholder, ◌>>=◌}

-- The parts that are not blank, without the space around them.
instants : List String → List String
instants [] = []
instants (p ∷ ps) =
    let rest = instants ps in if is_nil (trim_space p) then rest else trim_space p ∷ rest

set_text : List String → Result String
set_text [] = err (failed "empty leaf selector")
set_text (p ∷ ps) = ok ("{" ++ (join ", " (p ∷ ps) ++ "}"))

unfoldable pub tstz_set : String → Result String
unfolding instants set_text
tstz_set csv = set_text (instants (split b',' csv))

-- The expression clipped by the argument that is appended, cast to the type.
abbrev at_time : String → String → String → List Value → Result (String × List Value)
at_time expr value cast args = ok (
  "atTime("
      ++ (expr
          ++ (", CAST("
              ++ (placeholder (length (List.◌++◌ args (text value ∷ [])))
                  ++ (" AS " ++ (cast ++ "))"))))),
  List.◌++◌ args (text value ∷ []),
)

sub_flag : String → Query → String
sub_flag sub q = if is_nil (first q (to_lower sub)) then first q sub else first q (to_lower sub)

-- The bounded interval that the sub-resource flag asks for.
is_bounded : String → String → String → Bool
is_bounded dt s e =
    not (is_nil (trim_space s)) && (not (is_nil (trim_space e)) && not (contains dt ".."))

clip_bounded : String → String → String → List Value → Result (String × List Value)
unfolding is_bounded
clip_bounded expr sub dt args = elim (split_interval dt) [
  | none ↦ err (failed (sub ++ " requires the datetime parameter to be a bounded interval"))
  | some (s, e) ↦
      if is_bounded dt s e
      then at_time expr (interval_text (trim_space s) (trim_space e)) "tstzspan" args
      else err (failed (sub ++ " requires the datetime parameter to be a bounded interval"))
]

clip_datetime : String → String → List Value → Result (String × List Value)
clip_datetime expr dt args = if is_nil dt then ok (expr, args) else elim (split_interval dt) [
  | some (s, e) ↦ at_time expr (interval_text s e) "tstzspan" args
  | none ↦ at_time expr ("{" ++ (trim_space dt ++ "}")) "tstzset" args
]

clip_leaf : String → Query → List Value → Result (String × List Value)
unfolding clip_datetime
clip_leaf expr q args =
    if is_nil (first q "leaf")
    then clip_datetime expr (first q "datetime") args
    else (tstz_set (first q "leaf") >>= λ set. at_time expr set "tstzset" args)

-- The empty name stands for a resource without a sub-resource flag.
unfoldable pub clip_sub : String → String → Query → List Value → Result (String × List Value)
unfolding clip_bounded clip_leaf sub_flag
clip_sub expr sub q args =
    if not (is_nil sub) && sub_flag sub q == "true"
    then clip_bounded expr sub (first q "datetime") args
    else clip_leaf expr q args

unfoldable pub clip : String → Query → List Value → Result (String × List Value)
unfolding clip_sub
clip expr q args = clip_sub expr "" q args
