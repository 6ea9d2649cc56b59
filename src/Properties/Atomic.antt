-- ===== src/Properties/Atomic.antt =====
-- What a request that creates properties leaves behind.
use mobility_api.Base.{String, ◌≡◌, ◌≢◌, arith, Option}
use mobility_api.Base.Json.{Json}
use mobility_api.Backend.{Backend, IsTransactional}
use mobility_api.Store.{serve, in_transaction_fails}
use mobility_api.Properties.Create.{post_tproperties}

module _ {S T : Type 0} (db : Backend S T) (law : IsTransactional db) (cid fid_text : String)
    (body : Option Json) (s : S) where
  -- On an engine with transactions, a request to create properties that is not answered by 201 leaves
  -- the database as it was, also where some of the properties of its body could have been stored.
  pub post_tproperties-atomic :
      (serve (post_tproperties db cid fid_text body) s).0.status ≢ 201
      → (serve (post_tproperties db cid fid_text body) s).1 ≡ s
  unfolding post_tproperties
  post_tproperties-atomic h = grind (arith, in_transaction_fails db)
