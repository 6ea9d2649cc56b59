-- ===== src/Properties/Create.antt =====
-- main.go: postTProperties and postTPropertyValues. A marshalled document is bound as its tree.
use Prim.Native.String.{◌++◌}
use mobility_api.Base.{
  String, Bool, true, ◌&&◌, ◌||◌, not, List, [], ◌∷◌, map, Option, none, some, is_empty, eqb,
  if◌then◌else◌,
}
use mobility_api.Base.Text.{is_nil, contains}
use mobility_api.Base.Int.{ℤ}
use mobility_api.Base.Json.{
  Json, null, arr, obj, str, object, array, member, str_of, to_list, is_obj, is_null,
}
use mobility_api.Backend.{int, text, doc, Backend, db_query_row, db_exec}
use mobility_api.Http.{
  Error, error_text, err_status, Response, write_json, http_err, Handler, pure, respond, or_respond,
  some_or, require, ◌>>=◌, ◌>>◌,
}
use mobility_api.PropType.{TType, tprop_type}
use mobility_api.Document.{tprop_mfjson}
use mobility_api.Store.{
  ident, require_collection, require_fid, no_feature, server_error, tx_query_row, tx_exec,
  in_transaction, row_or, scan_text,
}
use mobility_api.Properties.Form.{prop_form, conformant_form}
use mobility_api.Properties.Table.{ensure_tprop_table}

-- Each element decodes into a map: it is an object, or null.
all_maps : List Json → Bool
all_maps [] = true
all_maps (v ∷ vs) = (is_obj v || is_null v) && all_maps vs

-- The body as a list of objects, or as one object.
unfoldable pub property_list : Json → Option (List Json)
unfolding all_maps
property_list (arr xs) = if all_maps (to_list xs) then some (to_list xs) else none
property_list (obj m) = some (obj m ∷ [])
property_list null = some []
property_list _ = none

-- The body decoded into a map.
unfoldable map_body : Option Json → Option Json
map_body (some (obj m)) = some (obj m)
map_body (some null) = some null
map_body _ = none

-- The first unit that no conformant document can carry.
unfoldable pub bad_form : List Json → Option String
bad_form [] = none
bad_form (p ∷ ps) = if conformant_form (prop_form p) then bad_form ps else some (prop_form p)

abbrev bad_form_error : String → Response
bad_form_error uom = http_err 400 (
    "a unit of measure is an absolute URI or a string of exactly three characters, which is what the temporalProperty schema admits: "
    ++ uom)

abbrev accept_forms : {S : Type 0} → Option String → Handler S (Unit {0})
accept_forms none = pure tt
accept_forms (some uom) = respond (bad_form_error uom)

-- The response to an error of the INSERT.
abbrev insert_error : String → Error → Response
insert_error name e =
    if contains (error_text e) "duplicate key"
    then http_err 409 ("temporal property already exists: " ++ name)
    else http_err 400 ("store temporal property failed: " ++ error_text e)

abbrev document_error : Error → Response
document_error e = http_err (err_status e 400) (error_text e)

abbrev merge_error : Error → Response
merge_error e =
    if contains (error_text e) "overlap" || contains (error_text e) "common timestamp"
    then http_err 409 ("the new values overlap the existing ones in time: " ++ error_text e)
    else http_err 400 ("append failed: " ++ error_text e)

abbrev pub unknown_property : String → Response
unknown_property name = http_err 404 ("unknown temporal property: " ++ name)

abbrev insert_sql : TType → String
insert_sql ty =
    "INSERT INTO mf_tproperty (cid,fid,name,ptype,uom,description,"
    ++ (ty.col ++ (") VALUES ($1,$2,$3,$4,$5,$6," ++ (ty.cast ++ "FromMFJSON($7))")))

module _ {S T : Type 0} (db : Backend S T) (cid : String) where
  module _ (fid : ℤ) where
    -- One round of the loop over the properties.
    store_property : Json → Handler T String
    store_property p = do
      let name = str_of (member "name" p)
      require (not (is_nil name)) (http_err 400 "temporal property requires a name")
      ty ←
          some_or (tprop_type (str_of (member "type" p)))
            (http_err 400 ("unsupported temporal property type: " ++ str_of (member "type" p)))
      mfjson ← or_respond (tprop_mfjson ty.mf ty.def_interp p) document_error
      stored ← tx_exec db (insert_sql ty) (
          text cid
          ∷ int fid
          ∷ text name
          ∷ text ty.ogc
          ∷ text (prop_form p)
          ∷ text (str_of (member "description" p))
          ∷ doc mfjson
          ∷ [])
      or_respond stored (insert_error name)
      pure name

    store_properties : List Json → Handler T (List String)
    unfolding store_property
    store_properties [] = pure []
    store_properties (p ∷ ps) = do
      name ← store_property p
      names ← store_properties ps
      pure (name ∷ names)

    -- The transaction of postTProperties.
    unfoldable pub store_all : String → List Json → Handler T (List String)
    unfolding store_properties
    store_all tbl list = do
      found ← tx_query_row db ("SELECT 1 FROM " ++ (ident tbl ++ " WHERE id=$1")) (int fid ∷ [])
      or_respond found (λ e. no_feature)
      ensure_tprop_table db
      store_properties list

  -- `body` is the decoded JSON of the request, or none if it is no JSON.
  unfoldable pub post_tproperties : String → Option Json → Handler S Response
  post_tproperties fid_text body = do
    (tbl, srid) ← require_collection db cid
    fid ← require_fid fid_text
    raw ← some_or body (http_err 400 "invalid JSON body")
    list ← some_or (property_list raw) (http_err 400 "invalid temporal property body")
    require (not (is_empty list)) (http_err 400 "no temporal property supplied")
    accept_forms (bad_form list)
    names ← in_transaction db server_error (store_all fid tbl list)
    pure (
        write_json 201 (
          object (("message", str "created") ∷ ("temporalProperties", array (map str names)) ∷ [])))

  -- postTPropertyValues: the values are merged into the column of the stored type.
  unfoldable post_tproperty_values : String → String → Option Json → Handler S Response
  post_tproperty_values name fid_text body = do
    require_collection db cid
    fid ← require_fid fid_text
    found ←
        db_query_row db "SELECT ptype FROM mf_tproperty WHERE cid=$1 AND fid=$2 AND name=$3"
          (text cid ∷ int fid ∷ text name ∷ [])
    row ← row_or (unknown_property name) server_error found
    ptype ← or_respond (scan_text row) server_error
    ty ←
        some_or (tprop_type ptype) (http_err 500 ("stored property has an unknown type: " ++ ptype))
    raw ← some_or (map_body body) (http_err 400 "invalid JSON body")
    mfjson ← or_respond (tprop_mfjson ty.mf ty.def_interp raw) document_error
    merged ←
        db_exec db
          ("UPDATE mf_tproperty SET "
            ++ (ty.col
                ++ ("=merge("
                    ++ (ty.col
                        ++ (", "
                            ++ (ty.cast
                                ++ "FromMFJSON($4)) WHERE cid=$1 AND fid=$2 AND name=$3"))))))
          (text cid ∷ int fid ∷ text name ∷ doc mfjson ∷ [])
    count ← or_respond merged merge_error
    require (not (eqb count 0)) (unknown_property name)
    pure (write_json 201 (object (("message", str "appended") ∷ ("name", str name) ∷ [])))
