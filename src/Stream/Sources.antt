-- ===== src/Stream/Sources.antt =====
-- stream.go and stream_geometry.go: the records of a stored property, and the positions of a feature.
use mathlib.Core.List
use Prim.Native.String.{◌++◌}
use mobility_api.Base.{
  ℕ, zero, suc, ◌%◌, String, Bool, true, false, List, [], ◌∷◌, none, some, if◌then◌else◌,
}
use mobility_api.Base.Int.{ℤ}
use mobility_api.Base.Float.{Float}
use mobility_api.Base.Json.{Json, null, bool, num, str, obj, object, member, as_arr, arr_of, str_of}
use mobility_api.Backend.{Value, int, text, doc, Backend}
use mobility_api.Http.{failed, Result, ok, err}
use mobility_api.Store.{ident, scan_failure}
use mobility_api.Stream.{Instant}

-- A value: a number lands in `v`, a text in `s`, a Boolean in `s` as "t" or "f".
instant_of : String → Json → Instant
instant_of ts (num v) = record { t = ts; v = v; s = "" }
instant_of ts (str s) = record { t = ts; v = Float.dec false 0 0 0; s = s }
instant_of ts (bool true) = record { t = ts; v = Float.dec false 0 0 0; s = "t" }
instant_of ts (bool false) = record { t = ts; v = Float.dec false 0 0 0; s = "f" }
instant_of ts _ = record { t = ts; v = Float.dec false 0 0 0; s = "" }

position_of : String → Json → Json
position_of ts c = object (("datetime", str ts) ∷ ("coordinates", c) ∷ [])

-- The pairs of a time and a value, up to the shorter of the two lists.
module _ {A : Type 0} (make : String → Json → A) where
  paired : List Json → List Json → List A
  paired [] vals = []
  paired (d ∷ dts) [] = []
  paired (d ∷ dts) (v ∷ vals) = make (str_of d) v ∷ paired dts vals

  -- One member: another value than an object is passed over.
  collected : String → Json → List A
  unfolding paired
  collected key (obj m) = paired (arr_of (member "datetimes" (obj m))) (arr_of (member key (obj m)))
  collected key _ = []

  over_members : String → List Json → List A
  unfolding collected
  over_members key [] = []
  over_members key (m ∷ ms) = List.◌++◌ (collected key m) (over_members key ms)

  -- The flat form, or a sequence set; a document `null` decodes into no map and has no member.
  unfoldable all_pairs : String → Json → List A
  unfolding over_members
  all_pairs key d = elim (as_arr (member "sequences" d)) [
    | some seqs ↦ over_members key seqs
    | none ↦ collected key d
  ]

unless_empty : {A : Type 0} → String → List A → Result (List A)
unless_empty what [] = err (failed what)
unless_empty what (x ∷ xs) = ok (x ∷ xs)

decodes : Json → Bool
decodes (obj m) = true
decodes null = true
decodes _ = false

-- parseInstantsMFJSON
unfoldable parse_instants_mfjson : Json → Result (List Instant)
unfolding all_pairs instant_of unless_empty decodes
parse_instants_mfjson d =
    if decodes d
    then unless_empty "temporal property has no instants to stream"
        (all_pairs instant_of "values" d)
    else err (failed "json: cannot unmarshal into Go value of type map[string]interface {}")

-- parsePositionsMFJSON
unfoldable parse_positions_mfjson : Json → Result (List Json)
unfolding all_pairs position_of unless_empty decodes
parse_positions_mfjson d =
    if decodes d
    then unless_empty "temporal geometry has no positions to stream"
        (all_pairs position_of "coordinates" d)
    else err (failed "json: cannot unmarshal into Go value of type map[string]interface {}")

-- The index that the paced replay sends after n others: i = (i + 1) % len(insts).
unfoldable pub replay_index : ℕ → ℕ → ℕ
replay_index len zero = 0
replay_index len (suc n) = suc (replay_index len n) % len

-- A null column, a row's document, or the error of the query or of the scan.
loaded : {A : Type 0} → String → (Json → Result (List A)) → Result (List Value) → Result (List A)
loaded missing parse (err e) = err e
loaded missing parse (ok (Value.null ∷ [])) = err (failed missing)
loaded missing parse (ok (doc d ∷ [])) = parse d
loaded missing parse (ok row) = err scan_failure

module _ {S T : Type 0} (db : Backend S T) where
  -- replaySource
  unfoldable pub replay_source : String → ℤ → String → String → S → Result (List Instant)
  unfolding loaded parse_instants_mfjson
  replay_source cid fid name col s =
      loaded "temporal property value is null" parse_instants_mfjson (
        db.query_row s
          ("SELECT asMFJSON(" ++ (col ++ ") FROM mf_tproperty WHERE cid=$1 AND fid=$2 AND name=$3"))
          (text cid ∷ int fid ∷ text name ∷ []))

  -- geometryEvents
  unfoldable pub geometry_events : String → ℤ → S → Result (List Json)
  unfolding loaded parse_positions_mfjson
  geometry_events tbl fid s = loaded "feature has no trajectory" parse_positions_mfjson (
      db.query_row s
        ("SELECT asMFJSON(transform(trip, 4326)) FROM " ++ (ident tbl ++ " WHERE id=$1"))
        (int fid ∷ []))
