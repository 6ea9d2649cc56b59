-- ===== src/Items/Geometry.antt =====
-- main.go: the temporal geometry of a feature: tgSequence, tgSequenceQuery, postTgSequence and
-- deleteTgSequence.
use Prim.Native.String.{◌++◌}
use mobility_api.Base.{
  ℕ, zero, suc, ◌+◌, String, not, List, [], ◌∷◌, Option, none, some, eqb, ◌==◌, lookup,
  if◌then◌else◌,
}
use mobility_api.Base.Text.{to_lower, contains, replace_first}
use mobility_api.Base.Int.{ℤ, pos, negsuc, itoa}
use mobility_api.Base.Json.{Json, str, object}
use mobility_api.Backend.{Value, int, doc, Backend, db_query_row, db_exec}
use mobility_api.Http.{
  Error, error_text, ok, err, Response, write_json, write_header, http_err, Handler, pure,
  or_respond, some_or, require, Query, ◌>>=◌, ◌>>◌,
}
use mobility_api.Filters.Clip.{clip}
use mobility_api.Subresource.{build_tg_sequence}
use mobility_api.Ogcify.{ogcify}
use mobility_api.Store.{
  ident, require_collection, require_fid, no_feature, server_error, bad_request, row_or, scan_count,
}
use mobility_api.Properties.Remove.{member_id, has_member, is_single, delete_error}
use mobility_api.Properties.Read.{PropSpec, write_temporal_property}
use mobility_api.Items.Writes.{feature_tg}

abbrev uom_uri : String
uom_uri = "http://www.opengis.net/def/uom/UCUM/0/"

abbrev tprops : List (String × PropSpec)
tprops =
    (
      "velocity",
      record {
        expr = "speed(trip)";
        uom = uom_uri ++ "m_s-1";
        desc =
            "Speed over ground (velocity magnitude), a piecewise-constant function of the trajectory.";
      },
    )
    ∷ (
      "distance",
      record {
        expr = "cumulativeLength(trip)";
        uom = uom_uri ++ "m";
        desc = "Cumulative distance travelled along the trajectory.";
      },
    )
    ∷ []

-- The derived property over one member: the first `trip` of the expression is replaced.
member_spec : ℤ → PropSpec → PropSpec
member_spec tg spec = record spec {
  expr = replace_first spec.expr "trip" ("sequenceN(trip, " ++ (itoa tg ++ ")"));
}

no_geometry : ℤ → Response
no_geometry tg = http_err 404 ("no temporal geometry #" ++ (itoa tg ++ " for this feature"))

abbrev bad_tgid : Response
bad_tgid = http_err 400 "invalid temporal geometry id (1-based index into the sequence)"

-- count := *nseq, 0 for null; a negative count makes no round.
count_of : Option ℤ → ℕ
count_of none = 0
count_of (some (pos n)) = n
count_of (some (negsuc n)) = 0

-- Scan into a string, which is no null.
scan_member : List Value → Option Json
scan_member (doc v ∷ []) = some v
scan_member _ = none

overlap_error : Error → Response
overlap_error e =
    if contains (error_text e) "overlap"
    then http_err 409
        ("the sub-trajectory overlaps the existing temporal geometry in time: " ++ error_text e)
    else http_err 400 ("append failed: " ++ error_text e)

abbrev acceleration_error : Response
acceleration_error =
    http_err 501
      "acceleration is not derivable: linearly interpolated position gives a piecewise-constant (Step) speed, whose derivative is zero within each segment and undefined at the vertices"

module _ {S T : Type 0} (db : Backend S T) where
  -- The loop over the members: `left` of them follow the one numbered `n`; the first that does not
  -- scan ends it.
  members : String → String → List Value → ℕ → ℕ → S → List (ℕ × Json)
  unfolding scan_member
  members tbl expr args n zero s = []
  members tbl expr args n (suc left) s =
      let rest = members tbl expr args (n + 1) left s in
      elim (db.query_row s
        ("SELECT asMFJSON(sequenceN("
          ++ (expr ++ (", " ++ (itoa (pos n) ++ (")) FROM " ++ (ident tbl ++ " WHERE id=$1"))))))
        args) [
          | err e ↦ []
          | ok row ↦ elim (scan_member row) [ none ↦ [] | some mf ↦ (n, mf) ∷ rest ]
        ]

  unfoldable tg_sequence : String → String → String → Query → Handler S Response
  unfolding members count_of
  tg_sequence cid fid_text path q = do
    (tbl, srid) ← require_collection db cid
    fid ← require_fid fid_text
    (expr, args) ← or_respond (clip "trip" q (int fid ∷ [])) bad_request
    found ← db_query_row db ("SELECT 1 FROM " ++ (ident tbl ++ " WHERE id=$1")) (int fid ∷ [])
    row_or no_feature server_error found
    counted ←
        db_query_row db
          ("SELECT numSequences(" ++ (expr ++ (") FROM " ++ (ident tbl ++ " WHERE id=$1")))) args
    counts ← or_respond counted bad_request
    nseq ← or_respond (scan_count counts) bad_request
    mfjsons ← (λ s. pure (members tbl expr args 1 (count_of nseq) s) s)
    body ← or_respond (build_tg_sequence path mfjsons) server_error
    pure (write_json 200 (ogcify body))

  unfoldable tg_sequence_query :
      String → String → String → String → String → Query → Handler S Response
  unfolding member_spec no_geometry
  tg_sequence_query cid fid_text tgid qtype path q = do
    let kind = to_lower qtype
    require (not (kind == "acceleration")) acceleration_error
    spec ← some_or (lookup kind tprops) (http_err 404 ("unknown query type: " ++ kind))
    (tbl, srid) ← require_collection db cid
    fid ← require_fid fid_text
    tg ← some_or (member_id tgid) bad_tgid
    counted ←
        db_query_row db ("SELECT numSequences(trip) FROM " ++ (ident tbl ++ " WHERE id=$1"))
          (int fid ∷ [])
    counts ← row_or no_feature bad_request counted
    nseq ← or_respond (scan_count counts) bad_request
    require (has_member tg nseq) (no_geometry tg)
    write_temporal_property db tbl kind (member_spec tg spec) fid_text path q

  unfoldable pub post_tg_sequence : String → String → Option Json → Handler S Response
  unfolding overlap_error
  post_tg_sequence cid fid_text body = do
    (tbl, srid) ← require_collection db cid
    fid ← require_fid fid_text
    (tg, props) ← or_respond (feature_tg body) bad_request
    merged ←
        db_exec db
          ("UPDATE "
            ++ (ident tbl
                ++ " SET trip=merge(trip, setSRID(tgeompointFromMFJSON($2), $3)) WHERE id=$1"))
          (int fid ∷ doc tg ∷ int srid ∷ [])
    count ← or_respond merged overlap_error
    require (not (eqb count 0)) no_feature
    pure (write_json 201 (object (("message", str "appended") ∷ ("id", str (itoa fid)) ∷ [])))

  unfoldable delete_tg_sequence : String → String → String → Handler S Response
  unfolding no_geometry
  delete_tg_sequence cid fid_text tgid = do
    (tbl, srid) ← require_collection db cid
    fid ← require_fid fid_text
    tg ← some_or (member_id tgid) bad_tgid
    counted ←
        db_query_row db ("SELECT numSequences(trip) FROM " ++ (ident tbl ++ " WHERE id=$1"))
          (int fid ∷ [])
    counts ← row_or no_feature bad_request counted
    nseq ← or_respond (scan_count counts) bad_request
    require (has_member tg nseq) (no_geometry tg)
    require (not (is_single nseq)) (
        http_err 409
          "the feature has a single temporal geometry; delete the feature (DELETE .../items/{fid}) to remove it")
    removed ←
        db_exec db
          ("UPDATE "
            ++ (ident tbl
                ++ " SET trip = deleteTime(trip, getTime(sequenceN(trip, $2))) WHERE id = $1"))
          (int fid ∷ int tg ∷ [])
    or_respond removed delete_error
    pure (write_header 204)
