-- ===== src/Backend/Drivers.antt =====
-- backend.go and backend_duck.go: pgBackend over a pgx pool and duckBackend over database/sql. The two
-- client libraries are parameters, as the records Pool and Sql; both answer a scan of no row by a
-- sentinel of their own.
use mobility_api.Base.{ℕ, String, Bool, true, false, List, Option, none, some, if◌then◌else◌}
use mobility_api.Backend.{Value, Rows, Backend}
use mobility_api.Http.{Error, no_rows, failed, Result, ok, err}

-- An error of a client library: pgx.ErrNoRows, sql.ErrNoRows, one that wraps another, or any other, with
-- its text.
pub data DriverError : Type 0 where
  pgx_no_rows : String → DriverError
  sql_no_rows : String → DriverError
  wrapped : String → DriverError → DriverError
  other : String → DriverError

-- errors.Is(err, pgx.ErrNoRows)
unfoldable pub is_pgx_no_rows : DriverError → Bool
is_pgx_no_rows (pgx_no_rows text) = true
is_pgx_no_rows (sql_no_rows text) = false
is_pgx_no_rows (wrapped text e) = is_pgx_no_rows e
is_pgx_no_rows (other text) = false

-- errors.Is(err, sql.ErrNoRows)
unfoldable pub is_sql_no_rows : DriverError → Bool
is_sql_no_rows (pgx_no_rows text) = false
is_sql_no_rows (sql_no_rows text) = true
is_sql_no_rows (wrapped text e) = is_sql_no_rows e
is_sql_no_rows (other text) = false

unfoldable pub driver_text : DriverError → String
driver_text (pgx_no_rows text) = text
driver_text (sql_no_rows text) = text
driver_text (wrapped text e) = text
driver_text (other text) = text

-- An error that is passed on as it is, and the error of a row.
unfoldable pub passed : DriverError → Error
unfolding driver_text
passed e = failed (driver_text e)

pub data Driven (A : Type 0) : Type 0 where
  gave : A → Driven A
  raised : DriverError → Driven A

-- A pool of pgx and its transactions: Exec answers a tag, whose count is 0 where it fails, and an error.
pub record Pool (S T : Type 0) : Type 0 where
  pub query_row : S → String → List Value → Driven (List Value)
  pub query : S → String → List Value → Driven Rows
  pub exec : S → String → List Value → (ℕ × Option DriverError) × S
  pub begin : S → Driven T
  pub tx_query_row : T → String → List Value → Driven (List Value)
  pub tx_query : T → String → List Value → Driven Rows
  pub tx_exec : T → String → List Value → (ℕ × Option DriverError) × T
  pub commit : T → S → Option DriverError × S
  pub rollback : T → S → Option DriverError × S

-- database/sql: Exec answers a result, whose count may fail of its own.
pub record Sql (S T : Type 0) : Type 0 where
  pub query_row : S → String → List Value → Driven (List Value)
  pub query : S → String → List Value → Driven Rows
  pub exec : S → String → List Value → Driven (ℕ × Option DriverError) × S
  pub begin : S → Driven T
  pub tx_query_row : T → String → List Value → Driven (List Value)
  pub tx_query : T → String → List Value → Driven Rows
  pub tx_exec : T → String → List Value → Driven (ℕ × Option DriverError) × T
  pub commit : T → S → Option DriverError × S
  pub rollback : T → S → Option DriverError × S

-- pgRow.Scan
unfoldable pub pg_row : Driven (List Value) → Result (List Value)
unfolding is_pgx_no_rows passed
pg_row (gave row) = ok row
pg_row (raised e) = if is_pgx_no_rows e then err no_rows else err (passed e)

unfoldable pub pg_rows : Driven Rows → Result Rows
unfolding passed
pg_rows (gave rs) = ok rs
pg_rows (raised e) = err (passed e)

unfoldable pub pg_count : ℕ × Option DriverError → Result ℕ
unfolding passed
pg_count (n, none) = ok n
pg_count (n, some e) = err (passed e)

unfoldable pub pg_begun : {T : Type 0} → Driven T → Result T
unfolding passed
pg_begun (gave t) = ok t
pg_begun (raised e) = err (passed e)

unfoldable pub ended : Option DriverError → Result (Unit {0})
unfolding passed
ended none = ok tt
ended (some e) = err (passed e)

module _ {S T : Type 0} where
  -- pgBackend and pgTx
  unfoldable pub pg_backend : Pool S T → Backend S T
  unfolding pg_row pg_rows pg_count pg_begun ended
  pg_backend p = record {
    query_row = λ s sql args. pg_row (p.query_row s sql args);
    query = λ s sql args. pg_rows (p.query s sql args);
    exec = λ s sql args. (pg_count (p.exec s sql args).0, (p.exec s sql args).1);
    begin = λ s. pg_begun (p.begin s);
    tx_query_row = λ t sql args. pg_row (p.tx_query_row t sql args);
    tx_query = λ t sql args. pg_rows (p.tx_query t sql args);
    tx_exec = λ t sql args. (pg_count (p.tx_exec t sql args).0, (p.tx_exec t sql args).1);
    commit = λ t s. (ended (p.commit t s).0, (p.commit t s).1);
    rollback = λ t s. (p.rollback t s).1;
  }

-- duckRow.Scan
unfoldable pub duck_row : Driven (List Value) → Result (List Value)
unfolding is_sql_no_rows is_pgx_no_rows passed
duck_row (gave row) = ok row
duck_row (raised e) = if is_sql_no_rows e then err no_rows else err (passed e)

unfoldable pub duck_rows : Driven Rows → Result Rows
unfolding passed
duck_rows (raised e) = err (passed e)
duck_rows (gave rs) = ok rs

-- The error of RowsAffected is dropped.
unfoldable pub duck_count : Driven (ℕ × Option DriverError) → Result ℕ
unfolding passed
duck_count (raised e) = err (passed e)
duck_count (gave (n, e)) = ok n

unfoldable pub duck_begun : {T : Type 0} → Driven T → Result T
unfolding passed
duck_begun (raised e) = err (passed e)
duck_begun (gave t) = ok t

module _ {S T : Type 0} where
  -- duckBackend, duckRows and duckTx
  unfoldable pub duck_backend : Sql S T → Backend S T
  unfolding duck_row duck_rows duck_count duck_begun ended
  duck_backend d = record {
    query_row = λ s sql args. duck_row (d.query_row s sql args);
    query = λ s sql args. duck_rows (d.query s sql args);
    exec = λ s sql args. (duck_count (d.exec s sql args).0, (d.exec s sql args).1);
    begin = λ s. duck_begun (d.begin s);
    tx_query_row = λ t sql args. duck_row (d.tx_query_row t sql args);
    tx_query = λ t sql args. duck_rows (d.tx_query t sql args);
    tx_exec = λ t sql args. (duck_count (d.tx_exec t sql args).0, (d.tx_exec t sql args).1);
    commit = λ t s. (ended (d.commit t s).0, (d.commit t s).1);
    rollback = λ t s. (d.rollback t s).1;
  }
