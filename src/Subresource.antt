-- ===== src/Subresource.antt =====
-- subresource.go: a temporal property and a temporal geometry sequence as documents.
use mobility_api.Base.{ℕ, String, Bool, true, false, List, [], ◌∷◌, ◌++◌, ◌==◌, if◌then◌else◌}
use mobility_api.Base.Text.{is_nil}
use mobility_api.Base.Float.{dec}
use mobility_api.Base.Json.{
  Json, Fields, null, num, str, arr, obj, end, field, object, array, find, to_list,
}
use mobility_api.Http.{Result, ok, err, failed}
use mobility_api.Filters.Interval.{◌>>=◌}

-- json.Unmarshal into a map of raw values: null is the empty map.
abbrev pub as_map : Json → Result Fields
as_map (obj m) = ok m
as_map null = ok end
as_map _ = err (failed "json: cannot unmarshal into a map")

as_maps : List Json → Result (List Fields)
as_maps [] = ok []
as_maps (v ∷ vs) = (as_map v >>= λ m. (as_maps vs >>= λ ms. ok (m ∷ ms)))

-- json.Unmarshal into a list of maps.
map_list : Json → Result (List Fields)
unfolding as_maps
map_list (arr xs) = as_maps (to_list xs)
map_list null = ok []
map_list _ = err (failed "json: cannot unmarshal into a list of maps")

abbrev has_field : String → Fields → Bool
has_field k end = false
has_field k (field j v m) = if j == k then true else has_field k m

-- One segment of the value sequence, under the interpolation of the whole value.
unfoldable pub seg : Json → Fields → Json
seg interp m = object (
    ("datetimes", find "datetimes" m)
    ∷ ("interpolation", interp)
    ∷ ("lower_inc", find "lower_inc" m)
    ∷ ("upper_inc", find "upper_inc" m)
    ∷ ("values", find "values" m)
    ∷ [])

segs : Json → List Fields → List Json
unfolding seg
segs interp [] = []
segs interp (m ∷ ms) = seg interp m ∷ segs interp ms

value_sequence : Fields → Result (List Json)
unfolding segs map_list
value_sequence j =
    if has_field "sequences" j
    then (map_list (find "sequences" j) >>= λ ms. ok (segs (find "interpolation" j) ms))
    else if has_field "datetimes" j
    then ok (seg (find "interpolation" j) j ∷ [])
    else ok []

abbrev pub self_links : String → Json
self_links href = array (object (("rel", str "self") ∷ ("href", str href) ∷ []) ∷ [])

-- The form is left out when there is no unit.
abbrev form_fields : String → List (String × Json)
form_fields form = if is_nil form then [] else ("form", str form) ∷ []

unfoldable pub reshape_temporal_property :
    String → String → String → String → String → Json → Result Json
unfolding value_sequence
reshape_temporal_property name typ form desc self mfjson =
    (as_map mfjson >>= λ j.
    (value_sequence j >>= λ vs. ok (
      object (
        ("name", str name)
        ∷ ("type", str typ)
        ∷ (form_fields form
            ++ (("description", str desc)
                ∷ ("valueSequence", array vs)
                ∷ ("links", self_links self)
                ∷ []))))))

-- m["id"] = n, on a map that is written in any order.
set_field : String → Json → Fields → Fields
set_field k v end = field k v end
set_field k v (field j w m) = if j == k then field k v m else field j w (set_field k v m)

-- The map that the id is written into: a write into the nil map, which null gives, panics.
member_map : Json → Result Fields
member_map null = err (failed "panic: assignment to entry in nil map")
member_map v = as_map v

-- The members, each with its number as id.
tg_members : List (ℕ × Json) → Result (List Json)
unfolding set_field member_map
tg_members [] = ok []
tg_members ((n, v) ∷ vs) =
    (member_map v >>= λ m.
    (tg_members vs >>= λ ms. ok (obj (set_field "id" (num (dec false n 0 0)) m) ∷ ms)))

unfoldable pub build_tg_sequence : String → List (ℕ × Json) → Result Json
unfolding tg_members
build_tg_sequence self members =
    (tg_members members >>= λ elems. ok (
      object (
        ("type", str "TemporalGeometrySequence")
        ∷ ("geometrySequence", array elems)
        ∷ ("links", self_links self)
        ∷ [])))
