-- ===== src/Observations.antt =====
-- bulk.go: the observations of a batch, as they are decoded from GeoJSON points and from GeoParquet.

use Prim.Native.String.{◌++◌}
use mobility_api.Base.{
  ℕ, String, Bool, ◌||◌, List, [], ◌∷◌, Option, none, some, eqb, ◌==◌, if◌then◌else◌,
}
use mobility_api.Base.Text.{to_lower, trim, trim_space, is_nil}
use mobility_api.Base.Float.{Float}
use mobility_api.Base.Json.{Json, str, num, member}
use mobility_api.Http.{Error, failed, error_text, Result, ok, err}

-- One sample: its position is a WKB text, or two coordinates.
pub data Position : Type 0 where
  wkb : String → Position
  at : Float → Float → Position

pub record Observation : Type 0 where
  pub id : String
  pub position : Position
  pub t : String

-- A raw JSON token: its text, and what it decodes into as a string; no text where it is absent.
pub record RawJson : Type 0 where
  pub raw : String
  pub as_string : Option String

-- A feature of the decoded FeatureCollection.
pub record GeoFeature : Type 0 where
  pub id : RawJson
  pub geometry_type : String
  pub coordinates : List Float
  pub properties : Json
  pub when : RawJson

pub record GeoBody : Type 0 where
  pub kind : String
  pub features : List GeoFeature

pub record PqRow : Type 0 where
  pub geometry : String
  pub id : String
  pub ts : String

-- The libraries that decode the body, and those that print a number and a value. A reader that looks at
-- the header first is refused, or it reads the whole body. A parquet file that opens yields its rows, and
-- the error that ended the reading early, if one did.
pub record Wire : Type 0 where
  pub gzip : String → Result (Result String)
  pub zlib : String → Result (Result String)
  pub flate : String → Result String
  pub brotli : String → Result String
  pub zstd : String → Result (Result String)
  pub geojson : String → Result GeoBody
  pub parquet : String → Result (List PqRow × Option Error)
  pub format_float : Float → String
  pub marshal : Json → String

pub is_quote : ℕ → Bool
is_quote c = eqb c b'"'

unfoldable pub json_scalar : RawJson → String
unfolding is_quote trim
json_scalar raw =
    if is_nil raw.raw then "" else elim raw.as_string [ some s ↦ s | none ↦ trim is_quote raw.raw ]

unfoldable pub scalar : Wire → Json → String
unfolding is_quote trim
scalar w (str s) = s
scalar w (num v) = w.format_float v
scalar w Json.null = ""
scalar w v = trim is_quote (w.marshal v)

pub or_else : String → String → String
or_else s other = if is_nil s then other else s

unfoldable pub id_of : Wire → GeoFeature → String
unfolding json_scalar scalar or_else
id_of w f = or_else (json_scalar f.id) (scalar w (member "id" f.properties))

unfoldable pub time_of : Wire → GeoFeature → String
unfolding json_scalar scalar or_else
time_of w f =
    or_else
      (or_else
        (or_else
          (or_else (scalar w (member "datetime" f.properties))
            (scalar w (member "time" f.properties)))
          (scalar w (member "timestamp" f.properties)))
        (scalar w (member "t" f.properties)))
      (json_scalar f.when)

pub checked : String → String → Float → Float → Result Observation
checked id t x y =
    if is_nil id
    then err (failed "each feature needs an id (the vehicle identifier)")
    else if is_nil t
    then err (failed "each feature needs a timestamp (properties.datetime)")
    else ok record { id = id; position = at x y; t = t }

pub point : Wire → GeoFeature → List Float → Result Observation
unfolding checked id_of time_of
point w f [] = err (failed "a Point needs [x, y] coordinates")
point w f (x ∷ []) = err (failed "a Point needs [x, y] coordinates")
point w f (x ∷ y ∷ zs) = checked (id_of w f) (time_of w f) x y

pub observation : Wire → GeoFeature → Result Observation
unfolding point
observation w f =
    if f.geometry_type == "Point"
    then point w f f.coordinates
    else err (failed "bulk ingest expects Point geometries")

pub row_observation : PqRow → Result Observation
row_observation row =
    if is_nil row.geometry
    then err (failed "GeoParquet row is missing the geometry column")
    else if is_nil row.id || is_nil row.ts
    then err (failed "GeoParquet row is missing the id or ts column")
    else ok record { id = row.id; position = wkb row.geometry; t = row.ts }

-- The observations of all items, or the error of the first that has none.
module _ {A : Type 0} (read : A → Result Observation) where
  after_first : Result Observation → Result (List Observation) → Result (List Observation)
  after_first (err e) rest = err e
  after_first (ok o) (err e) = err e
  after_first (ok o) (ok os) = ok (o ∷ os)

  read_all : List A → Result (List Observation)
  unfolding after_first
  read_all [] = ok []
  read_all (x ∷ xs) = after_first (read x) (read_all xs)

pub decoded_collection : Wire → Result GeoBody → Result (List Observation)
unfolding read_all observation
decoded_collection w (err e) = err (failed ("invalid GeoJSON: " ++ error_text e))
decoded_collection w (ok fc) =
    if fc.kind == "FeatureCollection"
    then read_all (observation w) fc.features
    else err (failed "bulk GeoJSON ingest expects a FeatureCollection")

unfoldable pub parse_geojson_points : Wire → String → Result (List Observation)
unfolding decoded_collection
parse_geojson_points w body = decoded_collection w (w.geojson body)

-- The rows in front of a failure are looked at first.
unless_failed : Option Error → Result (List Observation) → Result (List Observation)
unless_failed none obs = obs
unless_failed (some e) (err x) = err x
unless_failed (some e) (ok obs) = err (failed ("GeoParquet read failed: " ++ error_text e))

pub decoded_rows : Result (List PqRow × Option Error) → Result (List Observation)
unfolding read_all row_observation unless_failed
decoded_rows (err e) = err (failed ("invalid GeoParquet: " ++ error_text e))
decoded_rows (ok (rows, failure)) = unless_failed failure (read_all row_observation rows)

unfoldable pub parse_geo_parquet : Wire → String → Result (List Observation)
unfolding decoded_rows
parse_geo_parquet w body = decoded_rows (w.parquet body)

pub read_whole : String → Result (Result String) → Result String
read_whole what (err e) = err (failed ("invalid " ++ (what ++ (" body: " ++ error_text e))))
read_whole what (ok body) = body

-- A zlib stream, or a raw one where the header is none of zlib's.
pub inflate : Result (Result String) → Result String → Result String
inflate (err e) raw = raw
inflate (ok body) raw = body

unfoldable pub decompress : Wire → String → String → Result String
unfolding read_whole inflate
decompress w body encoding =
    let e = to_lower (trim_space encoding) in
    if is_nil e || (e == "identity")
    then ok body
    else if (e == "gzip") || (e == "x-gzip")
    then read_whole "gzip" (w.gzip body)
    else if e == "deflate"
    then inflate (w.zlib body) (w.flate body)
    else if e == "br"
    then w.brotli body
    else if e == "zstd"
    then read_whole "zstd" (w.zstd body)
    else err (failed ("unsupported Content-Encoding: " ++ encoding))
