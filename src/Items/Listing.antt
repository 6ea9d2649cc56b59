-- ===== src/Items/Listing.antt =====
-- main.go: streamItems, its pages and the next link; feature.go: the rows that it reads.
use Prim.Native.String.{◌++◌}
use mathlib.Core.List
use mobility_api.Base.{
  ℕ, suc, String, Bool, true, false, List, [], ◌∷◌, Option, none, some, length, leb, eqb, map, ◌==◌,
  if◌then◌else◌,
}
use mobility_api.Base.Int.{ℤ, pos, atoi, itoa}
use mobility_api.Base.Float.{Float, dec}
use mobility_api.Base.Json.{Json, str, num, object, array}
use mobility_api.Backend.{Value, int, text, doc, float, Backend, db_query}
use mobility_api.Http.{Response, write_json, Handler, pure, or_respond, Query, first, ◌>>=◌}
use mobility_api.Filters.{item_filters}
use mobility_api.Filters.Interval.{placeholder}
use mobility_api.Feature.{typed_props, prop_sel, build_feature, nullable_int, nullable_text}
use mobility_api.Store.{ident, require_collection, server_error, bad_request}
use mobility_api.Items.Writes.{collection_generic}

-- The limit that the parameter asks for, if it reads as a positive number.
asked_limit : ℕ → Option ℤ → ℕ
asked_limit default (some (pos (suc n))) = suc n
asked_limit default _ = default

unfoldable pub page_limit : ℕ → ℕ → Query → ℕ
unfolding asked_limit
page_limit default max_limit q =
    let limit = asked_limit default (atoi (first q "limit")) in
    if leb limit max_limit then limit else max_limit

-- lastID after the rows of a page.
unfoldable pub last_id : ℤ → List ℤ → ℤ
last_id k [] = k
last_id k (x ∷ xs) = last_id x xs

-- The `after` of the next link: the last row's id if the page is full, else there is no link.
unfoldable pub next_after : ℕ → List ℤ → Option ℤ
unfolding last_id
next_after limit rows = if eqb (length rows) limit then some (last_id (pos 0) rows) else none

-- featCols
unfoldable pub feat_cols : Bool → String
feat_cols true = "id, properties"
feat_cols false = "id, mmsi, name"

pub record FeatureRow : Type 0 where
  pub id : ℤ
  pub props : Json
  pub bbox : List Float
  pub tmin : String
  pub tmax : String
  pub tgeom : Json

with_box : ℤ → Option Json → List Value → Option FeatureRow
with_box id (some props)
      (float a ∷ float b ∷ float c ∷ float d ∷ text tmin ∷ text tmax ∷ doc tg ∷ []) =
    some (record {
      id = id;
      props = props;
      bbox = a ∷ b ∷ c ∷ d ∷ [];
      tmin = tmin;
      tmax = tmax;
      tgeom = tg;
    })
with_box id _ _ = none

unfoldable pub both : (ℤ → Float) → Option (Option ℤ) → Option (Option String) → Option Json
unfolding typed_props
both of_int (some mmsi) (some name) = some (typed_props of_int mmsi name)
both of_int _ _ = none

-- scanFeatureRow, none where Scan fails.
unfoldable pub scan_feature_row : (ℤ → Float) → Bool → List Value → Option FeatureRow
unfolding with_box both nullable_int nullable_text
scan_feature_row of_int true (int id ∷ doc props ∷ rest) = with_box id (some props) rest
scan_feature_row of_int false (int id ∷ mmsi ∷ name ∷ rest) =
    with_box id (both of_int (nullable_int mmsi) (nullable_text name)) rest
scan_feature_row of_int _ _ = none

take_scanned : Option FeatureRow → List FeatureRow → List FeatureRow
take_scanned none rest = []
take_scanned (some r) rest = r ∷ rest

-- The rows of the loop: it ends at the first that does not scan.
unfoldable pub scanned_rows : (ℤ → Float) → Bool → List (List Value) → List FeatureRow
unfolding take_scanned scan_feature_row
scanned_rows of_int generic [] = []
scanned_rows of_int generic (row ∷ rows) =
    take_scanned (scan_feature_row of_int generic row) (scanned_rows of_int generic rows)

-- url.Values.Set
without : String → Query → Query
without k [] = []
without k ((j, v) ∷ q) = let rest = without k q in if j == k then rest else (j, v) ∷ rest

set : String → String → Query → Query
unfolding without
set k v q = (k, v ∷ []) ∷ without k q

-- The query of the next link.
unfoldable pub next_query : Query → ℕ → ℤ → Query
unfolding set
next_query q limit last = set "limit" (itoa (pos limit)) (set "after" (itoa last) q)

-- `encode` is url.Values.Encode, which orders the keys.
next_link : (Query → String) → String → Query → ℕ → Option ℤ → List (String × Json)
unfolding next_query
next_link encode cid q limit none = []
next_link encode cid q limit (some last) =
    (
      "links",
      array (
          object (
            ("rel", str "next")
            ∷ (
              "href",
              str ("/collections/" ++ (cid ++ ("/items?" ++ encode (next_query q limit last)))),
            )
            ∷ [])
          ∷ []),
    )
    ∷ []

page_sql : Bool → String → String → String → String → String
unfolding feat_cols prop_sel
page_sql generic tg_expr tbl where_sql limit =
    "SELECT id, "
    ++ (prop_sel generic
        ++ (", Xmin(b),Ymin(b),Xmax(b),Ymax(b),CAST(Tmin(b) AS text),CAST(Tmax(b) AS text), asMFJSON(g) FROM ("
            ++ ("SELECT "
                ++ (feat_cols generic
                    ++ (", g, stbox(g) AS b FROM ("
                        ++ ("SELECT "
                            ++ (feat_cols generic
                                ++ (", "
                                    ++ (tg_expr
                                        ++ (" AS g FROM "
                                            ++ (ident tbl
                                                ++ (" "
                                                    ++ (where_sql
                                                        ++ (" ORDER BY id LIMIT "
                                                            ++ (limit
                                                            ++ ") i) s ORDER BY id")))))))))))))))

-- The FeatureCollection of a page.
page_document : (Query → String) → String → ℤ → Query → ℕ → List FeatureRow → Json
unfolding next_link
page_document encode cid srid q limit rows = object (
    List.◌++◌
      (("type", str "FeatureCollection")
        ∷ (
          "features",
          array (
              map (λ r. build_feature r.id r.props srid r.bbox r.tmin r.tmax r.tgeom none cid)
                rows),
        )
        ∷ ("numberReturned", num (dec false (length rows) 0 0))
        ∷ [])
      (next_link encode cid q limit (next_after limit (map (λ r. r.id) rows))))

module _ {S T : Type 0} (db : Backend S T) (of_int : ℤ → Float) (default max_limit : ℕ) where
  -- The rows of a page, and the limit that it has.
  unfoldable pub page_rows : String → ℤ → Query → Handler S (ℕ × List FeatureRow)
  unfolding page_sql
  page_rows tbl srid q = do
    let limit = page_limit default max_limit q
    f ← or_respond (item_filters srid q) bad_request
    let args = List.◌++◌ f.args (int (pos limit) ∷ [])
    generic ← collection_generic db tbl
    found ←
        db_query db (page_sql generic f.tg_expr tbl f.where_sql (placeholder (length args))) args
    rows ← or_respond found server_error
    pure (limit, scanned_rows of_int generic rows.rows)

  unfoldable stream_items : (Query → String) → String → Query → Handler S Response
  unfolding page_rows page_document
  stream_items encode cid q = do
    (tbl, srid) ← require_collection db cid
    (limit, rows) ← page_rows tbl srid q
    pure (write_json 200 (page_document encode cid srid q limit rows))
