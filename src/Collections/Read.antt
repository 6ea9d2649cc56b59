-- ===== src/Collections/Read.antt =====
-- main.go: listCollections and getCollection.
use Prim.Native.String.{◌++◌}
use mathlib.Core.List
use mobility_api.Base.{zero, String, Bool, true, false, List, [], ◌∷◌, Option, none, some}
use mobility_api.Base.Int.{ℤ, pos, itoa}
use mobility_api.Base.Json.{Json, null, num, str, object, array}
use mobility_api.Backend.{Value, int, text, float, Backend, db_query_row, db_query}
use mobility_api.Http.{Result, ok, err, Response, write_json, Handler, pure, or_respond, ◌>>=◌}
use mobility_api.Filters.Interval.{◌>>=◌ as ◌>>=ᵣ◌}
use mobility_api.Feature.{nullable_text}
use mobility_api.Timestamp.{rfc3339}
use mobility_api.Store.{
  ident, require_collection, no_collection, server_error, scan_failure, scan_texts,
}

crs_uri : ℤ → Json
crs_uri srid = array (str ("http://www.opengis.net/def/crs/EPSG/0/" ++ itoa srid) ∷ [])

collection_links : String → Json
collection_links id = array (
    object (("rel", str "self") ∷ ("href", str ("/collections/" ++ id)) ∷ [])
    ∷ object (("rel", str "items") ∷ ("href", str ("/collections/" ++ (id ++ "/items"))) ∷ [])
    ∷ object (
        ("rel", str "enclosure")
        ∷ ("href", str ("/collections/" ++ (id ++ "/export")))
        ∷ ("type", str "application/x-ndjson")
        ∷ [])
    ∷ [])

-- A *string as encoding/json writes it.
pointer : Option String → Json
pointer none = null
pointer (some s) = str s

collection_entry : String → ℤ → Json → Json → Json → List (String × Json)
unfolding crs_uri collection_links
collection_entry id srid title desc item_type =
    ("id", str id)
    ∷ ("title", title)
    ∷ ("description", desc)
    ∷ ("itemType", item_type)
    ∷ ("crs", crs_uri srid)
    ∷ ("links", collection_links id)
    ∷ []

listed : String → ℤ → List (Option (Option String)) → Result Json
unfolding collection_entry pointer
listed id srid (some title ∷ some desc ∷ some item_type ∷ []) =
    ok (object (collection_entry id srid (pointer title) (pointer desc) (pointer item_type)))
listed id srid _ = err scan_failure

scan_collection : List Value → Result Json
unfolding listed nullable_text
scan_collection (text id ∷ title ∷ desc ∷ item_type ∷ int srid ∷ []) =
    listed id srid (nullable_text title ∷ nullable_text desc ∷ nullable_text item_type ∷ [])
scan_collection _ = err scan_failure

-- The rows in order; one that does not scan fails the whole.
scan_collections : List (List Value) → Result (List Json)
unfolding scan_collection
scan_collections [] = ok []
scan_collections (row ∷ rows) =
    (scan_collection row >>=ᵣ λ c. (scan_collections rows >>=ᵣ λ cs. ok (c ∷ cs)))

-- The extent of a row of the box, which a collection without trajectories has not.
extent : Result (List Value) → List (String × Json)
extent (ok (float a ∷ float b ∷ float c ∷ float d ∷ text tmin ∷ text tmax ∷ [])) =
    (
      "extent",
      object (
          (
            "spatial",
            object (
                ("bbox", array (array (num a ∷ num b ∷ num c ∷ num d ∷ []) ∷ []))
                ∷ ("crs", str "http://www.opengis.net/def/crs/OGC/1.3/CRS84")
                ∷ []),
          )
          ∷ (
            "temporal",
            object (
                ("interval", array (array (str (rfc3339 tmin) ∷ str (rfc3339 tmax) ∷ []) ∷ []))
                ∷ ("trs", str "http://www.opengis.net/def/uom/ISO-8601/0/Gregorian")
                ∷ []),
          )
          ∷ []),
    )
    ∷ []
extent _ = []

-- srid != 0
is_known : ℤ → Bool
is_known (pos zero) = false
is_known _ = true

module _ {S T : Type 0} (db : Backend S T) where
  unfoldable list_collections : Handler S Response
  unfolding scan_collections
  list_collections = do
    found ←
        db_query db "SELECT id, title, description, item_type, crs FROM collections ORDER BY id" []
    rows ← or_respond found server_error
    cols ← or_respond (scan_collections rows.rows) server_error
    pure (
        write_json 200 (
          object (
            ("collections", array cols)
            ∷ (
              "links",
              array (object (("rel", str "self") ∷ ("href", str "/collections") ∷ []) ∷ []),
            )
            ∷ [])))

  extent_of : Bool → String → Handler S (List (String × Json))
  unfolding extent
  extent_of false tbl = pure []
  extent_of true tbl = do
    box ←
        db_query_row db
          ("SELECT Xmin(e),Ymin(e),Xmax(e),Ymax(e),CAST(Tmin(e) AS text),CAST(Tmax(e) AS text) FROM (SELECT transform(extent(trip), 4326) e FROM "
            ++ (ident tbl ++ ") s"))
          []
    pure (extent box)

  unfoldable get_collection : String → Handler S Response
  unfolding collection_entry extent_of is_known
  get_collection cid = do
    (tbl, srid) ← require_collection db cid
    found ←
        db_query_row db "SELECT title,description,item_type FROM collections WHERE id=$1"
          (text cid ∷ [])
    row ← or_respond found (λ e. no_collection)
    (title, desc, item_type) ← or_respond (scan_texts row) (λ e. no_collection)
    box ← extent_of (is_known srid) tbl
    pure (
        write_json 200 (
          object
            (List.◌++◌ (collection_entry cid srid (str title) (str desc) (str item_type)) box)))
