-- ===== src/Backend/Alike.antt =====
-- backend.go and backend_duck.go: the two drivers behind the seam, against each other, and what the seam
-- gets of the laws of a client library.
use mathlib.Core.Path.{subst}
use mobility_api.Base.{ℕ, ◌≡◌, refl, sym, ap, ◌∙◌, List, Option, none, some, Option-cases, inl, inr}
use mobility_api.Backend.{Value, Rows, IsTransactional}
use mobility_api.Backend.Drivers.{
  DriverError, pgx_no_rows, sql_no_rows, wrapped, other, is_pgx_no_rows, is_sql_no_rows,
  driver_text, passed, Driven, gave, raised, Pool, Sql, pg_backend, duck_backend, pg_row, pg_rows,
  pg_count, pg_begun, duck_row, duck_rows, duck_count, duck_begun, ended,
}
use mobility_api.Http.{err_ne_ok}

-- The tag that pgx would answer: the count of a result, or 0 and the error.
unfoldable tag_of : Driven (ℕ × Option DriverError) → ℕ × Option DriverError
tag_of (gave (n, e)) = (n, none)
tag_of (raised e) = (0, some e)

-- The error of pgx in the place of one of database/sql: each raises its own sentinel for no row.
exchanged : DriverError → DriverError
exchanged (pgx_no_rows text) = sql_no_rows text
exchanged (sql_no_rows text) = pgx_no_rows text
exchanged (wrapped text e) = wrapped text (exchanged e)
exchanged (other text) = other text

-- A read of a row by pgx in the place of one by database/sql.
unfoldable row_of : Driven (List Value) → Driven (List Value)
unfolding exchanged
row_of (gave row) = gave row
row_of (raised e) = raised (exchanged e)

module _ {S T : Type 0} where
  -- The pool that answers as a handle of database/sql does, with the sentinel of its own library.
  unfoldable pub pool_of : Sql S T → Pool S T
  unfolding tag_of row_of
  pool_of d = record {
    query_row = λ s sql args. row_of (d.query_row s sql args);
    query = d.query;
    exec = λ s sql args. (tag_of (d.exec s sql args).0, (d.exec s sql args).1);
    begin = d.begin;
    tx_query_row = λ t sql args. row_of (d.tx_query_row t sql args);
    tx_query = d.tx_query;
    tx_exec = λ t sql args. (tag_of (d.tx_exec t sql args).0, (d.tx_exec t sql args).1);
    commit = d.commit;
    rollback = d.rollback;
  }

is_pgx_no_rows-exchanged : (e : DriverError) → is_pgx_no_rows (exchanged e) ≡ is_sql_no_rows e
unfolding is_pgx_no_rows is_sql_no_rows exchanged
is_pgx_no_rows-exchanged (pgx_no_rows text) = refl
is_pgx_no_rows-exchanged (sql_no_rows text) = refl
is_pgx_no_rows-exchanged (wrapped text e) = is_pgx_no_rows-exchanged e
is_pgx_no_rows-exchanged (other text) = refl

passed-exchanged : (e : DriverError) → passed (exchanged e) ≡ passed e
unfolding passed driver_text exchanged
passed-exchanged (pgx_no_rows text) = refl
passed-exchanged (sql_no_rows text) = refl
passed-exchanged (wrapped text e) = refl
passed-exchanged (other text) = refl

row_alike : (r : Driven (List Value)) → duck_row r ≡ pg_row (row_of r)
unfolding duck_row pg_row row_of
row_alike (gave row) = refl
row_alike (raised e) = rw (is_pgx_no_rows-exchanged e, passed-exchanged e) refl

rows_alike : (r : Driven Rows) → duck_rows r ≡ pg_rows r
unfolding duck_rows pg_rows
rows_alike (gave rs) = refl
rows_alike (raised e) = refl

count_alike : (r : Driven (ℕ × Option DriverError)) → duck_count r ≡ pg_count (tag_of r)
unfolding duck_count pg_count tag_of
count_alike (gave (n, e)) = refl
count_alike (raised e) = refl

begun_alike : {T : Type 0} (r : Driven T) → duck_begun r ≡ pg_begun r
unfolding duck_begun pg_begun
begun_alike (gave t) = refl
begun_alike (raised e) = refl

-- The tier on DuckDB is the tier on PostgreSQL over a pool that answers as the handle of database/sql does,
-- but raises pgx.ErrNoRows where the handle raises sql.ErrNoRows, and the other way round: the two
-- backends are one, with the same rows, counts, transactions and errors, and so each handler answers
-- alike on them.
pub duck_backend-pg_backend : {S T : Type 0} (d : Sql S T) → duck_backend d ≡ pg_backend (pool_of d)
unfolding duck_backend pg_backend pool_of
duck_backend-pg_backend d = λ i. record {
  query_row = λ s sql args. row_alike (d.query_row s sql args) i;
  query = λ s sql args. rows_alike (d.query s sql args) i;
  exec = λ s sql args. (count_alike (d.exec s sql args).0 i, (d.exec s sql args).1);
  begin = λ s. begun_alike (d.begin s) i;
  tx_query_row = λ t sql args. row_alike (d.tx_query_row t sql args) i;
  tx_query = λ t sql args. rows_alike (d.tx_query t sql args) i;
  tx_exec = λ t sql args. (count_alike (d.tx_exec t sql args).0 i, (d.tx_exec t sql args).1);
  commit = λ t s. (ended (d.commit t s).0, (d.commit t s).1);
  rollback = λ t s. (d.rollback t s).1;
}

-- What pgx documents of a transaction: it ends with nothing of it kept where it is rolled back, and where
-- its commit fails.
pub record KeepsNothing {S T : Type 0} (p : Pool S T) : Type 0 where
  pub rolled_back : (t : T) (s : S) → (p.rollback t s).1 ≡ s
  pub not_committed :
      (t : T) (s : S) (e : DriverError) → (p.commit t s).0 ≡ some e → (p.commit t s).1 ≡ s

-- The laws of the seam hold of pgBackend by those of its pool.
pg_backend-IsTransactional :
    {S T : Type 0} (p : Pool S T) → KeepsNothing p → IsTransactional (pg_backend p)
unfolding pg_backend ended
pg_backend-IsTransactional p law = record {
  rollback_lem = law.rolled_back;
  commit_fails = λ t s e h. elim (Option-cases (p.commit t s).0) [
    | inl done ↦ absurd (err_ne_ok (sym h ∙ ap ended done))
    | inr (x, refused) ↦ law.not_committed t s x refused
  ];
}

-- The laws of the seam hold of duckBackend by those of its handle.
duck_backend-IsTransactional :
    {S T : Type 0} (d : Sql S T) → KeepsNothing (pool_of d) → IsTransactional (duck_backend d)
duck_backend-IsTransactional d law =
    subst IsTransactional (sym (duck_backend-pg_backend d))
      (pg_backend-IsTransactional (pool_of d) law)
