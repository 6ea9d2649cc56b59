-- ===== src/Properties/Read.antt =====
-- main.go: getTProperty, writeTemporalProperty and listTProperties.
use Prim.Native.String.{◌++◌}
use mathlib.Core.List
use mobility_api.Base.{String, Bool, true, false, List, [], ◌∷◌, length, if◌then◌else◌}
use mobility_api.Base.Text.{is_nil}
use mobility_api.Base.Int.{ℤ}
use mobility_api.Base.Float.{dec}
use mobility_api.Base.Json.{Json, num, str, object, array}
use mobility_api.Backend.{Value, int, text, Backend, db_query_row, db_query}
use mobility_api.Http.{
  Response, write_json, http_err, Handler, pure, or_respond, some_or, Query, ◌>>=◌, ◌>>◌,
}
use mobility_api.Filters.Clip.{clip, clip_sub}
use mobility_api.PropType.{tprop_type}
use mobility_api.Subresource.{reshape_temporal_property, self_links}
use mobility_api.Ogcify.{ogcify}
use mobility_api.Store.{
  ident, require_collection, require_fid, no_feature, server_error, bad_request, row_or, scan_texts,
  scan_doc,
}
use mobility_api.Properties.Create.{unknown_property}
use mobility_api.Properties.Remove.{registered}

-- A temporal property that MobilityDB derives from the trajectory.
pub record PropSpec : Type 0 where
  pub expr : String
  pub uom : String
  pub desc : String

-- One entry of the listing.
entry : String → String × String × String × String → Json
entry base (name, ptype, uom, desc) = object (
    List.◌++◌
      (("name", str name)
        ∷ ("type", str ptype)
        ∷ ("description", str desc)
        ∷ ("links", self_links (base ++ ("/" ++ name)))
        ∷ [])
      (if is_nil uom then [] else ("form", str uom) ∷ []))

-- The rows up to the first that does not scan.
entries : String → List (List Value) → List Json
unfolding entry
entries base [] = []
entries base ((text name ∷ text ptype ∷ text uom ∷ text desc ∷ []) ∷ rows) =
    entry base (name, ptype, uom, desc) ∷ entries base rows
entries base (_ ∷ rows) = []

listing : String → String → List Json → Response
listing base now list = write_json 200 (
    object (
      ("temporalProperties", array list)
      ∷ ("numberReturned", num (dec false (length list) 0 0))
      ∷ ("numberMatched", num (dec false (length list) 0 0))
      ∷ ("timeStamp", str now)
      ∷ ("links", self_links base)
      ∷ []))

module _ {S T : Type 0} (db : Backend S T) where
  -- `path` is the path of the request.
  unfoldable get_tproperty : String → String → String → String → Query → Handler S Response
  get_tproperty cid name fid_text path q = do
    require_collection db cid
    fid ← require_fid fid_text
    let key = text cid ∷ int fid ∷ text name ∷ []
    found ←
        db_query_row db
          "SELECT ptype, coalesce(uom,''), coalesce(description,'') FROM mf_tproperty WHERE cid=$1 AND fid=$2 AND name=$3"
          key
    row ← row_or (unknown_property name) server_error found
    (ptype, uom, desc) ← or_respond (scan_texts row) server_error
    ty ←
        some_or (tprop_type ptype) (http_err 500 ("stored property has an unknown type: " ++ ptype))
    (expr, args) ← or_respond (clip_sub ty.col "subTemporalValue" q key) bad_request
    read ←
        db_query_row db
          ("SELECT asMFJSON("
            ++ (expr ++ ") FROM mf_tproperty WHERE cid=$1 AND fid=$2 AND name=$3"))
          args
    value ← or_respond read bad_request
    mf ← or_respond (scan_doc value) bad_request
    body ← or_respond (reshape_temporal_property name ty.ogc uom desc path mf) server_error
    pure (write_json 200 (ogcify body))

  unfoldable pub write_temporal_property :
      String → String → PropSpec → String → String → Query → Handler S Response
  write_temporal_property tbl name spec fid_text path q = do
    fid ← require_fid fid_text
    (expr, args) ← or_respond (clip spec.expr q (int fid ∷ [])) bad_request
    read ←
        db_query_row db
          ("SELECT asMFJSON(" ++ (expr ++ (") FROM " ++ (ident tbl ++ " WHERE id=$1")))) args
    value ← row_or no_feature bad_request read
    mf ← or_respond (scan_doc value) bad_request
    body ←
        or_respond (reshape_temporal_property name "TReal" spec.uom spec.desc path mf) server_error
    pure (write_json 200 (ogcify body))

  list_rows : String → String → Bool → String → ℤ → Handler S Response
  unfolding entries listing
  list_rows base now false cid fid = pure (listing base now [])
  list_rows base now true cid fid = do
    found ←
        db_query db
          "SELECT name, ptype, coalesce(uom,''), coalesce(description,'') FROM mf_tproperty WHERE cid=$1 AND fid=$2 ORDER BY name"
          (text cid ∷ int fid ∷ [])
    rows ← or_respond found server_error
    pure (listing base now (entries base rows.rows))

  -- `now` is the time of the request.
  unfoldable list_tproperties : String → String → String → String → Handler S Response
  unfolding list_rows registered
  list_tproperties cid fid_text base now = do
    (tbl, srid) ← require_collection db cid
    fid ← require_fid fid_text
    found ← db_query_row db ("SELECT 1 FROM " ++ (ident tbl ++ " WHERE id=$1")) (int fid ∷ [])
    or_respond found (λ e. no_feature)
    there ← registered db
    list_rows base now there cid fid
