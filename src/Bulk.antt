-- ===== src/Bulk.antt =====
-- bulk.go: the ingestion of a batch of observations.
pub mod Batch
use mathlib.Core.List
use Prim.Native.String.{◌++◌}
use mobility_api.Base.{
  ℕ, suc, ◌+◌, String, Bool, true, false, not, ◌&&◌, ◌||◌, List, [], ◌∷◌, Option, none, some, eqb,
  ltb, length, ◌==◌, if◌then◌else◌,
}
use mobility_api.Base.Text.{to_lower, trim, trim_space, contains, is_nil}
use mobility_api.Base.Int.{ℤ, pos, itoa}
use mobility_api.Base.Float.{Float}
use mobility_api.Base.Json.{Json, str, num, member, object}
use mobility_api.Backend.{Value, int, float, text, Backend}
use mobility_api.Http.{
  Error, failed, error_text, Result, ok, err, Response, write_json, http_err, Handler, pure,
  respond, or_respond, some_or, require, ◌>>=◌, ◌>>◌,
}
use mobility_api.Store.{ident, require_collection, tx_exec, in_transaction}
use mobility_api.Observations.{
  GeoBody, GeoFeature, Observation, Position, PqRow, RawJson, Wire, at, checked, decoded_collection,
  decoded_rows, decompress, id_of, inflate, is_quote, json_scalar, observation, or_else,
  parse_geo_parquet, parse_geojson_points, point, read_whole, row_observation, scalar, time_of, wkb,
}

unfoldable is_ordering_error : Error → Bool
is_ordering_error e =
    let m = to_lower (error_text e) in
    contains m "increasing"
    || (contains m "overlap"
        || (contains m "ordered" || (contains m "must be" && contains m "after")))

unfoldable bulk_error : Error → Response
unfolding is_ordering_error
bulk_error e =
    if is_ordering_error e
    then http_err 409
        ("an observation is not strictly after the feature's last instant: " ++ error_text e)
    else http_err 400 ("ingest failed: " ++ error_text e)

-- The SQL of the instant, its arguments, and the placeholder of the id after them.
instant_sql : Position → String
instant_sql (wkb g) = "tgeompoint(ST_SetSRID(ST_GeomFromWKB($1),$2),CAST($3 AS timestamptz))"
instant_sql (at x y) = "tgeompoint(ST_SetSRID(ST_MakePoint($1,$2),$3),CAST($4 AS timestamptz))"

instant_args : ℤ → String → Position → List Value
instant_args srid t (wkb g) = text g ∷ int srid ∷ text t ∷ []
instant_args srid t (at x y) = float x ∷ float y ∷ int srid ∷ text t ∷ []

id_place : Position → String
id_place (wkb g) = "$4"
id_place (at x y) = "$5"

module _ {S T : Type 0} (db : Backend S T) where
  create_one : String → Observation → List Value → Handler T Bool
  unfolding instant_sql id_place bulk_error
  create_one tbl o args = do
    inserted ←
        tx_exec db
          ("INSERT INTO "
            ++ (ident tbl
                ++ ("(id, trip) VALUES ("
                    ++ (id_place o.position ++ (", " ++ (instant_sql o.position ++ ")"))))))
          args
    or_respond inserted bulk_error
    pure true

  extended_or : Bool → Handler T Bool → Handler T Bool
  extended_or true create = pure false
  extended_or false create = create

  -- One observation: true where it created its feature.
  unfoldable append_one : String → ℤ → Observation → Handler T Bool
  unfolding create_one extended_or instant_args
  append_one tbl srid o = do
    let args = List.◌++◌ (instant_args srid o.t o.position) (text o.id ∷ [])
    updated ←
        tx_exec db
          ("UPDATE "
            ++ (ident tbl
                ++ (" SET trip = appendInstant(trip, "
                    ++ (instant_sql o.position ++ (") WHERE id=" ++ id_place o.position)))))
          args
    tag ← or_respond updated bulk_error
    extended_or (ltb 0 tag) (create_one tbl o args)

  -- The features created and those extended.
  unfoldable pub append_all : String → ℤ → List Observation → Handler T (ℕ × ℕ)
  unfolding append_one
  append_all tbl srid [] = pure (0, 0)
  append_all tbl srid (o ∷ os) = do
    new ← append_one tbl srid o
    (created, extended) ← append_all tbl srid os
    pure (if new then (suc created, extended) else (created, suc extended))

  -- appendBatch, whose errors the request answers.
  unfoldable append_batch : String → ℤ → List Observation → Handler S (ℕ × ℕ)
  unfolding append_all bulk_error
  append_batch tbl srid obs = in_transaction db bulk_error (append_all tbl srid obs)

  -- `body` is the request's body as read, within the size limit.
  unfoldable pub bulk_ingest : Wire → String → Result String → String → String → Handler S Response
  unfolding decompress parse_geojson_points parse_geo_parquet append_batch
  bulk_ingest w cid body encoding content_type = do
    (tbl, srid) ← require_collection db cid
    packed ←
        or_respond body
          (λ e. http_err 413 ("request body too large or unreadable: " ++ error_text e))
    plain ← or_respond (decompress w packed encoding) (λ e. http_err 415 (error_text e))
    obs ←
        or_respond
          (if contains (to_lower content_type) "parquet"
            then parse_geo_parquet w plain
            else parse_geojson_points w plain)
          (λ e. http_err 400 (error_text e))
    (created, extended) ← append_batch tbl srid obs
    pure (
        write_json 201 (
          object (
            ("observations", num (Float.dec false (length obs) 0 0))
            ∷ ("featuresCreated", num (Float.dec false created 0 0))
            ∷ ("featuresExtended", num (Float.dec false extended 0 0))
            ∷ [])))
