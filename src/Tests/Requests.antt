-- ===== src/Tests/Requests.antt =====
-- Requests run against the database of the tests.
use mobility_api.Base.{
  ℕ, String, ◌≡◌, refl, ◌≢◌, arith, List, [], ◌∷◌, Option, none, some, inl, inr, ◌+◌, length, false,
}
use mobility_api.Base.Int.{pos, atoi}
use mobility_api.Base.Float.{Float}
use mobility_api.Base.Json.{Json, Fields, str, object, array, obj, field, fields, end, null}
use mobility_api.Http.{Result, ok, err, failed, err_status, go}
use Prim.Native.String.{◌++◌}
use mobility_api.Store.Identifiers.{ident-reads_back, read_ident}
use mobility_api.Store.{ident, serve, collection_meta, valid_id}
use mobility_api.Collections.Handlers.{CollectionBody, post_collection, delete_collection}
use mobility_api.Collections.Atomic.{post_collection-atomic, delete_collection-atomic}
use mobility_api.Properties.Create.{post_tproperties}
use mobility_api.Properties.Atomic.{post_tproperties-atomic}
use mobility_api.Items.Writes.{FeatureBody, post_item, put_item}
use mobility_api.Items.Geometry.{post_tg_sequence}
use mobility_api.Items.Refusals.{refusals_differ}
use mobility_api.Bulk.{bulk_ingest, append_all}
use mobility_api.Observations.{Wire, GeoFeature, RawJson, Observation, at}
use mobility_api.Bulk.Batch.{bulk_ingest-atomic}
use mobility_api.Tests.{fleet, answer, nothing, engine, engine-IsTransactional, number}

-- The first property can be stored, the second has a type that there is not.
abbrev two_properties : Json
two_properties = array (
    object (
      ("name", str "speed")
      ∷ ("type", str "TReal")
      ∷ ("datetimes", array (str "2011-06-03T18:57:53Z" ∷ []))
      ∷ ("values", array (number 7 ∷ []))
      ∷ [])
    ∷ object (("name", str "colour") ∷ ("type", str "TColour") ∷ [])
    ∷ [])

two_properties_refused :
    (serve (post_tproperties fleet "ships" "1" (some two_properties)) 0).0.status ≡ 400
unfolding post_tproperties atoi collection_meta mobility_api.Properties.Create.property_list
    mobility_api.Properties.Create.bad_form mobility_api.Properties.Form.conformant_form
    mobility_api.Properties.Form.prop_form mobility_api.Store.in_transaction
    mobility_api.Properties.Create.store_all mobility_api.Store.ident mobility_api.Store.doubled
    mobility_api.Base.Text.contains mobility_api.Properties.Table.ensure_tprop_table
    mobility_api.PropType.tprop_type mobility_api.PropType.tprop_tokens
    mobility_api.Base.Text.trim_space mobility_api.Document.tprop_mfjson
two_properties_refused = refl

post_tproperties-atomic_example :
    (serve (post_tproperties fleet "ships" "1" (some two_properties)) 0).1 ≡ 0
post_tproperties-atomic_example =
    post_tproperties-atomic fleet (engine-IsTransactional answer "broken") "ships" "1"
      (some two_properties) 0 (λ h. omega (arith, two_properties_refused))

abbrev buses : CollectionBody
buses = record { id = "buses"; title = "Buses"; description = ""; item_type = ""; crs = "" }

buses_refused :
    (serve (post_collection (engine nothing "CREATE INDEX") (some buses)) 0).0.status ≡ 500
unfolding post_collection valid_id collection_meta mobility_api.Store.in_transaction
    mobility_api.Collections.Handlers.create_collection mobility_api.Base.Text.contains
    mobility_api.Store.ident mobility_api.Store.doubled
buses_refused = refl

post_collection-atomic_example :
    (serve (post_collection (engine nothing "CREATE INDEX") (some buses)) 0).1 ≡ 0
post_collection-atomic_example =
    post_collection-atomic (engine nothing "CREATE INDEX")
      (engine-IsTransactional nothing "CREATE INDEX") 0 (some buses)
      (λ h. omega (arith, buses_refused))

deletion_refused : (serve (delete_collection (engine answer "DELETE") "ships") 0).0.status ≡ 500
unfolding delete_collection collection_meta mobility_api.Store.in_transaction
    mobility_api.Collections.Handlers.drop_collection mobility_api.Base.Text.contains
    mobility_api.Store.ident mobility_api.Store.doubled
deletion_refused = refl

delete_collection-atomic_example :
    (serve (delete_collection (engine answer "DELETE") "ships") 0).1 ≡ 0
delete_collection-atomic_example =
    delete_collection-atomic (engine answer "DELETE") (engine-IsTransactional answer "DELETE") 0
      "ships" (λ h. omega (arith, deletion_refused))

abbrev absent : RawJson
absent = record { raw = ""; as_string = none }

abbrev one : Float
one = Float.dec false 1 0 0

abbrev tram : GeoFeature
tram = record {
  id = record { raw = "12"; as_string = none };
  geometry_type = "Point";
  coordinates = one ∷ one ∷ [];
  properties = object (("time", str "2011-06-03T18:57:53Z") ∷ []);
  when = absent;
}

abbrev wire : Wire
wire = record {
  gzip = λ s. ok (ok s);
  zlib = λ s. ok (ok s);
  flate = λ s. ok s;
  brotli = λ s. ok s;
  zstd = λ s. ok (ok s);
  geojson = λ s. ok (record { kind = "FeatureCollection"; features = tram ∷ tram ∷ [] });
  parquet = λ s. err (failed "no parquet");
  format_float = λ v. "1";
  marshal = λ v. "";
}

batch_refused :
    (serve
      (bulk_ingest (engine answer "appendInstant") wire "ships" (ok "body") "gzip" "")
      0).0.status
    ≡ 400
unfolding bulk_ingest collection_meta mobility_api.Base.Text.to_lower
    mobility_api.Base.Text.trim_space mobility_api.Base.Text.contains
    mobility_api.Store.in_transaction mobility_api.Store.ident mobility_api.Store.doubled
    mobility_api.Http.error_text
batch_refused = refl

bulk_ingest-atomic_example :
    (serve (bulk_ingest (engine answer "appendInstant") wire "ships" (ok "body") "gzip" "") 0).1 ≡ 0
bulk_ingest-atomic_example =
    bulk_ingest-atomic (engine answer "appendInstant")
      (engine-IsTransactional answer "appendInstant") wire "ships" (ok "body") "gzip" "" 0
      (λ h. omega (arith, batch_refused))

abbrev two_observations : List Observation
two_observations =
    record { id = "12"; position = at one one; t = "2011-06-03T18:57:53Z" }
    ∷ record { id = "12"; position = at one one; t = "2011-06-03T18:57:54Z" }
    ∷ []

two_extended : (append_all fleet "ships" (pos 4326) two_observations 0).0 ≡ go (0, 2)
unfolding append_all mobility_api.Base.Text.contains mobility_api.Store.ident
    mobility_api.Store.doubled
two_extended = refl

abbrev cubic : Fields
cubic = fields (("type", str "MovingPoint") ∷ ("interpolation", str "Cubic") ∷ [])

abbrev cubic_feature : FeatureBody
cubic_feature = record { id = "3"; properties = null; crs = ""; tg = obj cubic }

ships_found : collection_meta fleet "ships" 0 ≡ some ("ships", pos 4326)
unfolding collection_meta
ships_found = refl

one_read : atoi "1" ≡ some (pos 1)
unfolding atoi
one_read = refl

refusals_differ_example :
    ((serve (post_item fleet "ships" (some cubic_feature)) 0).0.status ≡ 501)
    × ((serve
          (put_item fleet "ships" "1" (some (obj (field "temporalGeometry" (obj cubic) end))))
          0).0.status
        ≡ 400)
    × ((serve
          (post_tg_sequence fleet "ships" "1"
            (some (obj (field "temporalGeometry" (obj cubic) end))))
          0).0.status
        ≡ 400)
refusals_differ_example =
    refusals_differ (field "temporalGeometry" (obj cubic) end) cubic "Cubic" (inr (inl refl)) refl
      refl refl fleet 0 "ships" "1" ("ships", pos 4326) (pos 1) ships_found one_read cubic_feature
      refl

ident-reads_back_example :
    read_ident (ident "a\"; DROP TABLE b" ++ " WHERE id=$1")
    ≡ some ("a\"; DROP TABLE b", " WHERE id=$1")
ident-reads_back_example = ident-reads_back "a\"; DROP TABLE b" " WHERE id=$1" refl
