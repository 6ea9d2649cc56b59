-- ===== src/Feature.antt =====
-- feature.go: the envelopes of a feature. Its documents are trees.
use Prim.Native.String.{◌++◌}
use mobility_api.Base.{String, Bool, true, false, List, [], ◌∷◌, Option, none, some, map}
use mobility_api.Base.Int.{ℤ, itoa}
use mobility_api.Base.Float.{Float}
use mobility_api.Base.Json.{Json, null, num, str, obj, Fields, end, field, object, array}
use mobility_api.Backend.{Value}
use mobility_api.Http.{Result, ok, err}
use mobility_api.Store.{scan_failure}
use mobility_api.Ogcify.{ogcify}
use mobility_api.Timestamp.{rfc3339}

-- typedProps: the keys as marshalled, in their order. A number of the document is a parameter.
module _ (of_int : ℤ → Float) where
  int_or_null : Option ℤ → Json
  int_or_null none = null
  int_or_null (some n) = num (of_int n)

  text_or_null : Option String → Json
  text_or_null none = null
  text_or_null (some s) = str s

  unfoldable pub typed_props : Option ℤ → Option String → Json
  unfolding int_or_null text_or_null
  typed_props mmsi name = object (("mmsi", int_or_null mmsi) ∷ ("name", text_or_null name) ∷ [])

-- propSel
unfoldable pub prop_sel : Bool → String
prop_sel true = "CAST(coalesce(properties,CAST('{}' AS jsonb)) AS text)"
prop_sel false = "mmsi, name"

unfoldable crs_urn : ℤ → Json
crs_urn srid = object (
    ("type", str "Name")
    ∷ ("properties", object (("name", str ("urn:ogc:def:crs:EPSG::" ++ itoa srid)) ∷ []))
    ∷ [])

trs_gregorian : Json
trs_gregorian = object (
    ("type", str "Link")
    ∷ (
      "properties",
      object (
          ("type", str "ogcdef")
          ∷ ("href", str "http://www.opengis.net/def/uom/ISO-8601/0/Gregorian")
          ∷ []),
    )
    ∷ [])

-- The geometry is left out where there is none.
with_geometry : Option Json → Fields → Fields
with_geometry none m = m
with_geometry (some g) m = field "geometry" (ogcify g) m

-- buildFeature
unfoldable pub build_feature :
    ℤ → Json → ℤ → List Float → String → String → Json → Option Json → String → Json
unfolding crs_urn trs_gregorian with_geometry
build_feature id props srid bbox tmin tmax tgeom geom cid = obj (
    field "type" (str "Feature") (
      field "id" (str (itoa id)) (
        field "properties" props (
          field "crs" (crs_urn srid) (
            field "trs" trs_gregorian (
              field "bbox" (array (map num bbox)) (
                field "time" (array (str (rfc3339 tmin) ∷ str (rfc3339 tmax) ∷ [])) (
                  field "temporalGeometry" (ogcify tgeom) (
                    with_geometry geom (
                      field "links"
                        (array (
                          object (
                            ("rel", str "self")
                            ∷ ("href", str ("/collections/" ++ (cid ++ ("/items/" ++ itoa id))))
                            ∷ [])
                          ∷ []))
                        end))))))))))

-- buildExportFeature
unfoldable pub build_export_feature : ℤ → Json → Json → Json
build_export_feature id props tgeom = object (
    ("type", str "Feature")
    ∷ ("id", str (itoa id))
    ∷ ("properties", props)
    ∷ ("temporalGeometry", ogcify tgeom)
    ∷ [])

unfoldable pub nullable_int : Value → Option (Option ℤ)
nullable_int (Value.int n) = some (some n)
nullable_int Value.null = some none
nullable_int _ = none

unfoldable pub nullable_text : Value → Option (Option String)
nullable_text (Value.text s) = some (some s)
nullable_text Value.null = some none
nullable_text _ = none

typed_row :
    (ℤ → Float) → ℤ → Json → Option (Option ℤ) → Option (Option String) → Result (ℤ × Json × Json)
unfolding typed_props
typed_row of_int id tg (some mmsi) (some name) = ok (id, typed_props of_int mmsi name, tg)
typed_row of_int id tg _ _ = err scan_failure

-- scanExportRow: the id, the properties and the temporal geometry.
unfoldable pub scan_export_row : (ℤ → Float) → Bool → List Value → Result (ℤ × Json × Json)
unfolding typed_row nullable_int nullable_text
scan_export_row of_int true (Value.int id ∷ Value.doc props ∷ Value.doc tg ∷ []) =
    ok (id, props, tg)
scan_export_row of_int false (Value.int id ∷ mmsi ∷ name ∷ Value.doc tg ∷ []) =
    typed_row of_int id tg (nullable_int mmsi) (nullable_text name)
scan_export_row of_int _ _ = err scan_failure
