-- ===== src/Items/Refusals.antt =====
-- How postItem, putItem and postTgSequence answer an interpolation that only the standard names.
use mobility_api.Base.{String, ◌≡◌, refl, inl, inr, some, false}
use mobility_api.Base.Int.{ℤ, atoi}
use mobility_api.Base.Json.{Fields, str, obj, member, is_null}
use mobility_api.Backend.{Backend}
use mobility_api.Http.{status_err, err, err_status}
use mobility_api.Interp.{mdb_interp}
use mobility_api.Interp.Answers.{IsOgcOnly}
use mobility_api.Store.{serve, collection_meta}
use mobility_api.Items.Writes.{FeatureBody, map_geometry, feature_tg, post_item, put_item}
use mobility_api.Items.Geometry.{post_tg_sequence}

mdb_interp_ogc_only :
    (i : String) → IsOgcOnly i → (e : String) × (mdb_interp i ≡ err (status_err 501 e))
unfolding mdb_interp
mdb_interp_ogc_only i (inl h) = rw h (_, refl)
mdb_interp_ogc_only i (inr (inl h)) = rw h (_, refl)
mdb_interp_ogc_only i (inr (inr h)) = rw h (_, refl)

map_geometry_ogc_only :
    (m : Fields) (i : String)
    → IsOgcOnly i
    → member "interpolation" (obj m) ≡ str i
    → (e : String) × (map_geometry (obj m) ≡ err (status_err 501 e))
unfolding map_geometry
map_geometry_ogc_only m i o h = let (e, k) = mdb_interp_ogc_only i o in rw h (rw k (e, refl))

module _ (n m : Fields) (i : String) (o : IsOgcOnly i)
    (geometry : member "temporalGeometry" (obj n) ≡ obj m)
    (typed : is_null (member "type" (obj m)) ≡ false)
    (named : member "interpolation" (obj m) ≡ str i) where
  feature_tg_ogc_only : (e : String) × (feature_tg (some (obj n)) ≡ err (status_err 501 e))
  unfolding feature_tg
  feature_tg_ogc_only =
      let (x, k) = map_geometry_ogc_only m i o named in rw geometry (rw typed (rw k (x, refl)))

  module _ {S T : Type 0} (db : Backend S T) (s : S) (cid fid_text : String) (row : String × ℤ)
      (fid : ℤ) (found : collection_meta db cid s ≡ some row)
      (read : atoi fid_text ≡ some fid) where
    put_item_ogc_only : (serve (put_item db cid fid_text (some (obj n))) s).0.status ≡ 400
    unfolding put_item
    put_item_ogc_only = let (x, k) = feature_tg_ogc_only in rw found (rw read (rw k refl))

    post_tg_sequence_ogc_only :
        (serve (post_tg_sequence db cid fid_text (some (obj n))) s).0.status ≡ 400
    unfolding post_tg_sequence
    post_tg_sequence_ogc_only = let (x, k) = feature_tg_ogc_only in rw found (rw read (rw k refl))

    post_item_ogc_only :
        (f : FeatureBody) → f.tg ≡ obj m → (serve (post_item db cid (some f)) s).0.status ≡ 501
    unfolding post_item err_status
    post_item_ogc_only f g =
        let (x, k) = map_geometry_ogc_only m i o named in rw found (rw g (rw k refl))

    -- An interpolation that only the standard names is refused by postItem with 501, the status
    -- of its error; putItem and postTgSequence answer the same geometry with 400.
    pub refusals_differ :
        (f : FeatureBody)
        → f.tg ≡ obj m
        → ((serve (post_item db cid (some f)) s).0.status ≡ 501)
          × ((serve (put_item db cid fid_text (some (obj n))) s).0.status ≡ 400)
          × ((serve (post_tg_sequence db cid fid_text (some (obj n))) s).0.status ≡ 400)
    refusals_differ f g = (post_item_ogc_only f g, put_item_ogc_only, post_tg_sequence_ogc_only)
