-- ===== src/Collections/Handlers.antt =====
-- main.go: postCollection, putCollection, deleteCollection, getCollection and listCollections.
use Prim.Native.String.{◌++◌}
use mobility_api.Base.{
  String, Bool, true, false, not, [], ◌∷◌, Option, none, some, eqb, if◌then◌else◌,
}
use mobility_api.Base.Text.{is_nil}
use mobility_api.Base.Int.{ℤ}
use mobility_api.Base.Json.{str, object}
use mobility_api.Backend.{int, text, Backend, db_exec}
use mobility_api.Http.{
  Error, error_text, Response, write_json, write_header, http_err, Handler, pure, or_respond,
  some_or, require, ◌>>=◌, ◌>>◌,
}
use mobility_api.Store.{
  ident, valid_id, collection_meta, require_collection, no_collection, server_error, tx_exec,
  in_transaction,
}
use mobility_api.Properties.Remove.{purge_tprops}
use mobility_api.Collections.Crs.{crs_code}

-- The decoded body of a Collection; `crs` is the JSON text of the member, empty if it is absent.
pub record CollectionBody : Type 0 where
  pub id : String
  pub title : String
  pub description : String
  pub item_type : String
  pub crs : String

-- A body that decodes and has an id.
abbrev with_id : Option CollectionBody → Option CollectionBody
with_id none = none
with_id (some c) = if is_nil c.id then none else some c

is_none : Option (String × ℤ) → Bool
is_none none = true
is_none (some m) = false

abbrev failed_with : String → Error → Response
failed_with what e = http_err 400 (what ++ error_text e)

module _ {S T : Type 0} (db : Backend S T) where
  -- The transaction that creates a collection.
  unfoldable pub create_collection : CollectionBody → String → Handler T (Unit {0})
  create_collection c item_type = do
    registry ←
        tx_exec db
          "CREATE TABLE IF NOT EXISTS collections (id text PRIMARY KEY, title text, description text, item_type text, crs integer)"
          []
    or_respond registry server_error
    table ←
        tx_exec db
          ("CREATE TABLE "
            ++ (ident c.id ++ " (id integer PRIMARY KEY, properties jsonb, trip tgeompoint)"))
          []
    or_respond table (failed_with "create collection failed: ")
    index ← tx_exec db ("CREATE INDEX ON " ++ (ident c.id ++ " USING gist (trip)")) []
    or_respond index server_error
    row ←
        tx_exec db
          "INSERT INTO collections (id,title,description,item_type,crs) VALUES ($1,$2,$3,$4,$5)"
          (text c.id
            ∷ text c.title
            ∷ text c.description
            ∷ text item_type
            ∷ int (crs_code c.crs)
            ∷ [])
    or_respond row (failed_with "register collection failed: ")
    pure tt

  unfoldable pub post_collection : Option CollectionBody → Handler S Response
  unfolding is_none
  post_collection body = do
    c ← some_or (with_id body) (http_err 400 "invalid Collection / missing id")
    require (valid_id c.id)
        (http_err 400 "collection id must match [a-z_][a-z0-9_]* (a plain SQL identifier)")
    there ← (λ s. pure (collection_meta db c.id s) s)
    require (is_none there) (http_err 409 "collection already exists")
    in_transaction db server_error
        (create_collection c (if is_nil c.item_type then "movingfeature" else c.item_type))
    pure (record {
      status = 201;
      headers = ("Location", "/collections/" ++ c.id) ∷ [];
      body = some (object (("message", str "created") ∷ ("id", str c.id) ∷ []));
    })

  unfoldable put_collection : String → Option CollectionBody → Handler S Response
  put_collection cid body = do
    c ← some_or body (http_err 400 "invalid Collection body")
    updated ←
        db_exec db "UPDATE collections SET title=$2, description=$3, crs=$4 WHERE id=$1"
          (text cid ∷ text c.title ∷ text c.description ∷ int (crs_code c.crs) ∷ [])
    count ← or_respond updated (failed_with "update failed: ")
    require (not (eqb count 0)) no_collection
    pure (write_json 200 (object (("message", str "replaced") ∷ ("id", str cid) ∷ [])))

  -- The transaction that removes a collection.
  unfoldable pub drop_collection : String → String → Handler T (Unit {0})
  drop_collection tbl cid = do
    dropped ← tx_exec db ("DROP TABLE IF EXISTS " ++ ident tbl) []
    or_respond dropped server_error
    deleted ← tx_exec db "DELETE FROM collections WHERE id=$1" (text cid ∷ [])
    or_respond deleted server_error
    pure tt

  unfoldable pub delete_collection : String → Handler S Response
  delete_collection cid = do
    (tbl, srid) ← require_collection db cid
    in_transaction db server_error (drop_collection tbl cid)
    purge_tprops db "cid=$1" (text cid ∷ [])
    pure (write_header 204)
