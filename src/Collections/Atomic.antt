-- ===== src/Collections/Atomic.antt =====
-- What the requests on collections leave behind.
use mobility_api.Base.{String, ◌≡◌, ◌≢◌, arith, Option}
use mobility_api.Backend.{Backend, IsTransactional}
use mobility_api.Store.{serve, in_transaction_fails}
use mobility_api.Properties.Remove.{purge_tprops-go}
use mobility_api.Collections.Handlers.{CollectionBody, post_collection, delete_collection}

module _ {S T : Type 0} (db : Backend S T) (law : IsTransactional db) (s : S) where
  -- A request to create a collection that is not answered by 201 leaves the database as it was, on an
  -- engine with transactions: no table stays behind that the registry does not name.
  pub post_collection-atomic :
      (body : Option CollectionBody)
      → (serve (post_collection db body) s).0.status ≢ 201
      → (serve (post_collection db body) s).1 ≡ s
  unfolding post_collection
  post_collection-atomic body h = grind (arith, in_transaction_fails db)

  -- A request to delete a collection that is not answered by 204 leaves the database as it was, on an
  -- engine with transactions.
  pub delete_collection-atomic :
      (cid : String)
      → (serve (delete_collection db cid) s).0.status ≢ 204
      → (serve (delete_collection db cid) s).1 ≡ s
  unfolding delete_collection
  delete_collection-atomic cid h = grind (arith, in_transaction_fails db, purge_tprops-go db)
