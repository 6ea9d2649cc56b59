-- ===== src/Bulk/Batch.antt =====
-- What a bulk request leaves behind, and what it counts.
use mobility_api.Base.{ℕ, ◌+◌, String, ◌≡◌, ◌≢◌, arith, List, [], ◌∷◌, length}
use mobility_api.Base.Int.{ℤ}
use mobility_api.Backend.{Backend, IsTransactional}
use mobility_api.Http.{Result, go}
use mobility_api.Store.{serve, in_transaction_fails}
use mobility_api.Bulk.{append_all, bulk_ingest}
use mobility_api.Observations.{Observation, Wire}

-- A bulk request that answers otherwise than 201 leaves the database as it was, on an engine with
-- transactions.
pub bulk_ingest-atomic :
    {S T : Type 0} (db : Backend S T) (law : IsTransactional db) (w : Wire) (cid : String)
    (body : Result String) (encoding content_type : String) (s : S)
    → (serve (bulk_ingest db w cid body encoding content_type) s).0.status ≢ 201
    → (serve (bulk_ingest db w cid body encoding content_type) s).1 ≡ s
unfolding bulk_ingest
bulk_ingest-atomic db law w cid body encoding content_type s h =
    grind (arith, in_transaction_fails db)

module _ {S T : Type 0} (db : Backend S T) (tbl : String) (srid : ℤ) where
  -- A batch that goes through to its end creates or extends a feature for each observation.
  append_all-counts :
      (obs : List Observation) (t : T) (n : ℕ × ℕ)
      → (append_all db tbl srid obs t).0 ≡ go n
      → n.0 + n.1 ≡ length obs
  unfolding append_all
  append_all-counts [] t n h = ground arith
  append_all-counts (o ∷ os) t n h = grind (arith, append_all-counts os)
