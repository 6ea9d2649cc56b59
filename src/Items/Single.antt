-- ===== src/Items/Single.antt =====
-- main.go: getItem.
use Prim.Native.String.{◌++◌}
use mobility_api.Base.{String, Bool, true, false, List, [], ◌∷◌, Option, none, some}
use mobility_api.Base.Int.{ℤ}
use mobility_api.Base.Float.{Float}
use mobility_api.Base.Json.{Json}
use mobility_api.Backend.{Value, int, text, doc, float, Backend, db_query_row}
use mobility_api.Http.{Response, write_json, Handler, pure, some_or, or_respond, ◌>>=◌}
use mobility_api.Feature.{prop_sel, build_feature, nullable_int, nullable_text}
use mobility_api.Store.{ident, require_collection, require_fid, no_feature}
use mobility_api.Items.Writes.{collection_generic}
use mobility_api.Items.Listing.{FeatureRow, feat_cols, both}

-- The row with its trajectory.
boxed : ℤ → Option Json → List Value → Option (FeatureRow × Json)
boxed id (some props)
      (float a ∷ float b ∷ float c ∷ float d ∷ text tmin ∷ text tmax ∷ doc tg ∷ doc geom ∷ []) =
    some (
      record {
        id = id;
        props = props;
        bbox = a ∷ b ∷ c ∷ d ∷ [];
        tmin = tmin;
        tmax = tmax;
        tgeom = tg;
      },
      geom,
    )
boxed id _ _ = none

scan_item : (ℤ → Float) → Bool → List Value → Option (FeatureRow × Json)
unfolding boxed both nullable_int nullable_text
scan_item of_int true (int id ∷ doc props ∷ rest) = boxed id (some props) rest
scan_item of_int false (int id ∷ mmsi ∷ name ∷ rest) =
    boxed id (both of_int (nullable_int mmsi) (nullable_text name)) rest
scan_item of_int _ _ = none

item_sql : Bool → String → String
unfolding feat_cols prop_sel
item_sql generic tbl =
    "SELECT id, "
    ++ (prop_sel generic
        ++ (", Xmin(b),Ymin(b),Xmax(b),Ymax(b),CAST(Tmin(b) AS text),CAST(Tmax(b) AS text), asMFJSON(g), CAST(ST_AsGeoJSON(trajectory(g)) AS text) FROM ("
            ++ ("SELECT "
                ++ (feat_cols generic
                    ++ (", g, stbox(g) AS b FROM ("
                        ++ ("SELECT "
                            ++ (feat_cols generic
                                ++ (", trip AS g FROM "
                                    ++ (ident tbl ++ " WHERE id=$1) i) s")))))))))

module _ {S T : Type 0} (db : Backend S T) (of_int : ℤ → Float) where
  -- Any failure of the read is answered as a feature that is not found.
  unfoldable get_item : String → String → Handler S Response
  unfolding item_sql scan_item
  get_item cid fid_text = do
    (tbl, srid) ← require_collection db cid
    fid ← require_fid fid_text
    generic ← collection_generic db tbl
    found ← db_query_row db (item_sql generic tbl) (int fid ∷ [])
    columns ← or_respond found (λ e. no_feature)
    (r, geom) ← some_or (scan_item of_int generic columns) no_feature
    pure (
        write_json 200
          (build_feature r.id r.props srid r.bbox r.tmin r.tmax r.tgeom (some geom) cid))
