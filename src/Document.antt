-- ===== src/Document.antt =====
-- main.go: the MF-JSON document that a temporal property's body is rendered into for MobilityDB.
pub mod Total
use mobility_api.Base.{
  ℕ, zero, suc, String, Bool, true, ◌||◌, List, [], ◌∷◌, Option, none, some, ◌==◌, if◌then◌else◌,
}
use mobility_api.Base.Text.{is_nil}
use mobility_api.Base.Json.{
  Json, bool, str, arr, array, object, member, as_arr, str_of, is_null, depth,
}
use mobility_api.Http.{Result, ok, err, failed}
use mobility_api.Filters.Interval.{◌>>=◌}
use mobility_api.Interp.{mdb_interp}

-- The boolean, or true for any other value.
abbrev or_true : Json → Json
or_true (bool b) = bool b
or_true _ = bool true

-- The interpolation that MobilityDB is given for a body's own.
map_interp : String → Json → Result String
map_interp default v = if is_nil (str_of v) then ok default else mdb_interp (str_of v)

segment : Json → Json
segment m = object (
    ("values", member "values" m)
    ∷ ("datetimes", member "datetimes" m)
    ∷ ("lower_inc", or_true (member "lower_inc" m))
    ∷ ("upper_inc", or_true (member "upper_inc" m))
    ∷ [])

-- The loop over the segments: the interpolation is that of the first one which gives it.
segments : String → String → List Json → Result (String × List Json)
segments default interp [] = ok (interp, [])
segments default interp (m ∷ ms) =
    ((if is_nil interp then map_interp default (member "interpolation" m) else ok interp)
      >>= λ found. (segments default found ms >>= λ rest. ok (rest.0, segment m ∷ rest.1)))

sequence_document : String → String × List Json → Json
sequence_document mf_type (interp, seqs) =
    object (("type", str mf_type) ∷ ("sequences", array seqs) ∷ ("interpolation", str interp) ∷ [])

flat_document : String → Json → String → Json
flat_document mf_type body interp = object (
    ("type", str mf_type)
    ∷ ("datetimes", member "datetimes" body)
    ∷ ("values", member "values" body)
    ∷ ("interpolation", str interp)
    ∷ ("lower_inc", or_true (member "lower_inc" body))
    ∷ ("upper_inc", or_true (member "upper_inc" body))
    ∷ [])

flat : String → String → Json → Result Json
unfolding flat_document
flat mf_type default body =
    if is_null (member "datetimes" body) || is_null (member "values" body)
    then err (failed "temporal property requires datetimes and values (or a valueSequence)")
    else (map_interp default (member "interpolation" body) >>= λ interp.
        ok (flat_document mf_type body interp))

-- `again` renders the only member of a valueSequence.
by_sequence : (Json → Result Json) → String → String → Json → Option (List Json) → Result Json
by_sequence again mf_type default body none = flat mf_type default body
by_sequence again mf_type default body (some []) = flat mf_type default body
by_sequence again mf_type default body (some (seq ∷ [])) = again seq
by_sequence again mf_type default body (some (a ∷ (b ∷ cs))) =
    (segments default "" (a ∷ b ∷ cs) >>= λ found. ok (sequence_document mf_type found))

-- tPropMFJSON. A valueSequence of one member is rendered as that member, so the call goes down the
-- document; the fuel bounds its depth.
mfjson_within : ℕ → String → String → Json → Result Json
mfjson_within zero mf_type default body = err (failed "")
mfjson_within (suc fuel) mf_type default body =
    by_sequence (mfjson_within fuel mf_type default) mf_type default body
      (as_arr (member "valueSequence" body))

unfoldable pub tprop_mfjson : String → String → Json → Result Json
unfolding mfjson_within by_sequence flat map_interp segments segment sequence_document
tprop_mfjson mf_type default body = mfjson_within (suc (depth body)) mf_type default body
