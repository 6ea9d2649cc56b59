-- ===== src/Items/Writes.antt =====
-- main.go: postItem, putItem, deleteItem and featureTG.
use Prim.Native.String.{◌++◌}
use mobility_api.Base.{
  ℕ, String, Bool, true, false, not, [], ◌∷◌, Option, none, some, eqb, ◌==◌, if◌then◌else◌,
}
use mobility_api.Base.Int.{ℤ, pos, itoa, atoi}
use mobility_api.Base.Json.{
  Json, Fields, null, str, obj, end, field, object, member, str_of, is_obj, is_null,
}
use mobility_api.Backend.{Value, int, text, doc, Backend, db_query, db_exec}
use mobility_api.Http.{
  Error, failed, error_text, err_status, Result, ok, err, Response, write_json, write_header,
  http_err, Handler, pure, or_respond, some_or, require, ◌>>=◌, ◌>>◌,
}
use mobility_api.Interp.{mdb_interp}
use mobility_api.Store.{
  ident, require_collection, require_fid, no_feature, server_error, bad_request,
}
use mobility_api.Properties.Remove.{purge_tprops}
use mobility_api.Collections.Crs.{epsg_urn, atoi_or_max}

-- m[k] = v, at the place of the key if it is there.
set_member : String → Json → Fields → Fields
set_member k v end = field k v end
set_member k v (field j w m) = if j == k then field k v m else field j w (set_member k v m)

with_interp : Fields → Result String → Result Json
unfolding set_member
with_interp m (ok i) = ok (obj (set_member "interpolation" (str i) m))
with_interp m (err e) = err e

-- The geometry with its interpolation, where that is a string, put in MobilityDB's words.
interp_of : Fields → Json → Result Json
unfolding with_interp
interp_of m (str i) = with_interp m (mdb_interp i)
interp_of m _ = ok (obj m)

unfoldable pub map_geometry : Json → Result Json
unfolding interp_of
map_geometry (obj m) = interp_of m (member "interpolation" (obj m))
map_geometry v = ok v

-- The temporalGeometry of a Feature, or the body itself as a bare temporalGeometry.
inner_geometry : Json → Json
inner_geometry raw =
    if is_obj (member "temporalGeometry" raw) then member "temporalGeometry" raw else raw

-- The properties object, null where the body has none.
properties_of : Json → Json
properties_of raw = if is_obj (member "properties" raw) then member "properties" raw else null

with_properties : Json → Result Json → Result (Json × Json)
with_properties props (ok tg) = ok (tg, props)
with_properties props (err e) = err e

typed_geometry : Json → Json → Result (Json × Json)
unfolding with_properties properties_of
typed_geometry raw tg =
    if is_null (member "type" tg)
    then err (failed "missing temporalGeometry")
    else with_properties (properties_of raw) (map_geometry tg)

-- featureTG: the geometry and the properties. A body that decodes into no map is no JSON object.
unfoldable pub feature_tg : Option Json → Result (Json × Json)
unfolding typed_geometry inner_geometry
feature_tg (some (obj m)) = typed_geometry (obj m) (inner_geometry (obj m))
feature_tg (some null) = typed_geometry null null
feature_tg _ = err (failed "invalid JSON body")

-- propsJSON
abbrev props_json : Json → Value
props_json null = text "{}"
props_json props = doc props

-- The decoded body of a Feature: `id` is a JSON number or absent, `crs` is JSON text.
pub record FeatureBody : Type 0 where
  pub id : String
  pub properties : Json
  pub crs : String
  pub tg : Json

-- A body that decodes and has a temporalGeometry.
with_geometry : Option FeatureBody → Option FeatureBody
with_geometry none = none
with_geometry (some f) = if is_obj f.tg then some f else none

-- An explicit crs of the feature overrides the collection's.
feature_srid : ℤ → String → ℤ
feature_srid srid crs = elim (epsg_urn crs) [ none ↦ srid | some ds ↦ atoi_or_max ds ]

-- id, _ := feat.ID.Int64()
feature_id : String → ℤ
feature_id id = elim (atoi id) [ none ↦ pos 0 | some n ↦ n ]

is_ok {ℓ} : {A : Type ℓ} → Result A → Bool
is_ok (ok a) = true
is_ok (err e) = false

abbrev failed_with : String → Error → Response
failed_with what e = http_err 400 (what ++ error_text e)

module _ {S T : Type 0} (db : Backend S T) where
  -- collectionGeneric
  unfoldable pub collection_generic : String → Handler S Bool
  unfolding is_ok
  collection_generic table = do
    probe ← db_query db ("SELECT properties FROM " ++ (ident table ++ " LIMIT 0")) []
    pure (is_ok probe)

  insert_item : Bool → String → ℤ → Json → Json → ℤ → Handler S (Result ℕ)
  insert_item true tbl id props tg srid =
      db_exec db
        ("INSERT INTO "
          ++ (ident tbl
              ++ "(id,properties,trip) VALUES ($1,CAST($2 AS jsonb), setSRID(tgeompointFromMFJSON($3), $4))"))
        (int id ∷ props_json props ∷ doc tg ∷ int srid ∷ [])
  insert_item false tbl id props tg srid =
      db_exec db
        ("INSERT INTO "
          ++ (ident tbl
              ++ "(id,mmsi,name,trip) VALUES ($1,$2,$3, setSRID(tgeompointFromMFJSON($4), $5))"))
        (int id ∷ Value.null ∷ text (str_of (member "name" props)) ∷ doc tg ∷ int srid ∷ [])

  unfoldable pub post_item : String → Option FeatureBody → Handler S Response
  unfolding insert_item with_geometry feature_srid feature_id
  post_item cid body = do
    (tbl, srid) ← require_collection db cid
    feat ← some_or (with_geometry body) (http_err 400 "invalid Feature / missing temporalGeometry")
    tg ← or_respond (map_geometry feat.tg) (λ e. http_err (err_status e 400) (error_text e))
    generic ← collection_generic tbl
    inserted ←
        insert_item generic tbl (feature_id feat.id) feat.properties tg (feature_srid srid feat.crs)
    or_respond inserted (failed_with "ingest failed: ")
    pure (
        write_json 201
          (object (("message", str "created") ∷ ("id", str (itoa (feature_id feat.id))) ∷ [])))

  update_item : Bool → String → ℤ → Json → Json → ℤ → Handler S (Result ℕ)
  update_item true tbl fid props tg srid =
      db_exec db
        ("UPDATE "
          ++ (ident tbl
              ++ " SET properties=CAST($2 AS jsonb), trip=setSRID(tgeompointFromMFJSON($3), $4) WHERE id=$1"))
        (int fid ∷ props_json props ∷ doc tg ∷ int srid ∷ [])
  update_item false tbl fid props tg srid =
      db_exec db
        ("UPDATE "
          ++ (ident tbl ++ " SET name=$2, trip=setSRID(tgeompointFromMFJSON($3), $4) WHERE id=$1"))
        (int fid ∷ text (str_of (member "name" props)) ∷ doc tg ∷ int srid ∷ [])

  unfoldable pub put_item : String → String → Option Json → Handler S Response
  unfolding update_item
  put_item cid fid_text body = do
    (tbl, srid) ← require_collection db cid
    fid ← require_fid fid_text
    (tg, props) ← or_respond (feature_tg body) bad_request
    generic ← collection_generic tbl
    updated ← update_item generic tbl fid props tg srid
    count ← or_respond updated (failed_with "update failed: ")
    require (not (eqb count 0)) no_feature
    pure (write_json 200 (object (("message", str "replaced") ∷ ("id", str (itoa fid)) ∷ [])))

  unfoldable delete_item : String → String → Handler S Response
  delete_item cid fid_text = do
    (tbl, srid) ← require_collection db cid
    fid ← require_fid fid_text
    deleted ← db_exec db ("DELETE FROM " ++ (ident tbl ++ " WHERE id=$1")) (int fid ∷ [])
    count ← or_respond deleted server_error
    require (not (eqb count 0)) no_feature
    purge_tprops db "cid=$1 AND fid=$2" (text cid ∷ int fid ∷ [])
    pure (write_header 204)
