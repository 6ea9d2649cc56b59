-- ===== src/Tests/Drivers.antt =====
-- The drivers of the databases: a handle of one table, the opening of an engine, and a run of the tier.
use mobility_api.Base.{
  arith, ℕ, suc, String, ◌≡◌, refl, List, [], ◌∷◌, none, some, ◌==◌, if◌then◌else◌,
}
use mobility_api.Base.Int.{pos}
use mobility_api.Backend.{int, text}
use mobility_api.Backend.Drivers.{
  sql_no_rows, wrapped, other, gave, raised, Sql, duck_backend, pg_backend,
}
use mobility_api.Backend.Alike.{pool_of, duck_backend-pg_backend}
use mobility_api.Backend.Opening.{Clients, open_backend}
use mobility_api.Http.{Result, ok, err, failed, no_rows}
use mobility_api.Spark.{inline_params}
use mobility_api.Spark.Places.{placeholder}
use mobility_api.Spark.Statement.{Piece, plain, place, render, IsStatement, IsFree, literal_at}
use mobility_api.Spark.Filled.{inline_params-render}
use mobility_api.Startup.{
  Calls, main, returned, fatal, pinged, disconnected, listening, shut_down, closed,
}

-- A handle whose state counts its statements; a read of a row finds none, by a wrapped sentinel, and the
-- count of a result fails.
abbrev counting : Sql ℕ ℕ
counting = record {
  query_row = λ s sql args. raised (wrapped "scan: no rows" (sql_no_rows "no rows"));
  query = λ s sql args. raised (other "syntax error");
  exec = λ s sql args. (gave (3, some (other "no count")), suc s);
  begin = λ s. gave s;
  tx_query_row = λ t sql args. gave (int (pos t) ∷ []);
  tx_query = λ t sql args. raised (other "syntax error");
  tx_exec = λ t sql args. (raised (other "read-only"), t);
  commit = λ t s. (none, t);
  rollback = λ t s. (none, s);
}

duck_backend-pg_backend_example : duck_backend counting ≡ pg_backend (pool_of counting)
duck_backend-pg_backend_example = duck_backend-pg_backend counting

no_row_found : (duck_backend counting).query_row 0 "SELECT 1" [] ≡ err no_rows
unfolding duck_backend
no_row_found = refl

count_dropped : (duck_backend counting).exec 0 "DELETE" [] ≡ (ok 3, 1)
unfolding duck_backend
count_dropped = refl

-- Clients whose engine is the text that it was opened with.
abbrev clients : Clients String String (List String)
clients = record {
  parse_config = λ dsn. ok record { max_conns = pos 4; runtime_params = none; rest = dsn };
  new_pool = λ cfg. ok cfg.rest;
  exec = λ c sql. (none, sql ∷ c);
  new_connector = λ path boot. ok path;
  build_session = λ remote. ok remote;
}

abbrev unset : String → String
unset name = ""

opened_by_scheme :
    (open_backend clients unset "duckdb:///data/fleet.db"
      ≡ ok "/data/fleet.db?allow_unsigned_extensions=true")
    × (open_backend clients unset "duckdb://:memory:" ≡ ok "?allow_unsigned_extensions=true")
    × (open_backend clients unset "spark://host:15002" ≡ ok "sc://host:15002")
    × (open_backend clients unset "postgres:///fleet" ≡ ok "postgres:///fleet")
unfolding open_backend
opened_by_scheme = (refl, refl, refl, refl)

-- A service whose broker takes no subscription.
abbrev calls : Calls String
calls = record {
  getenv = λ name. if name == "MFAPI_MQTT_BROKER" then "tcp://broker" else "";
  open_backend = λ dsn. ok dsn;
  ping = λ b. none;
  emit_samples = λ b dir. some (failed "no collection");
  connect = λ broker id. none;
  subscribe = λ topic. some (failed "refused");
  pid = pos 7;
  serve = λ addr. none;
}

two_runs :
    (main calls ""
      ≡ (pinged ∷ disconnected ∷ listening ":8088" ∷ shut_down ∷ closed ∷ [], returned))
    × (main calls "samples" ≡ (pinged ∷ [], fatal "emitting samples: no collection"))
unfolding main mobility_api.Http.error_text
two_runs = (refl, refl)

-- A statement with two places, the second of them before the first.
abbrev statement : List Piece
statement =
    plain "UPDATE ships SET name = " ∷ place 1 ∷ plain " WHERE id=" ∷ place 0 ∷ plain ";" ∷ []

inline_params-render_example :
    inline_params
      (λ x. "1")
      (λ d. "")
      (render placeholder statement)
      (int (pos 7) ∷ text "l'or" ∷ [])
    ≡ render (literal_at (λ x. "1") (λ d. "") (int (pos 7) ∷ text "l'or" ∷ [])) statement
unfolding IsFree IsStatement mobility_api.Spark.Statement.is_apart mobility_api.Spark.spark_literal
    mobility_api.Base.Int.itoa mobility_api.Base.Text.replace_all
inline_params-render_example =
    inline_params-render (λ x. "1") (λ d. "") statement (int (pos 7) ∷ text "l'or" ∷ [])
      (refl, (refl, tt)) (refl, (omega arith, refl, (refl, (omega arith, refl, (refl, tt)))))

inlined_text :
    inline_params
      (λ x. "1")
      (λ d. "")
      (render placeholder statement)
      (int (pos 7) ∷ text "l'or" ∷ [])
    ≡ "UPDATE ships SET name = 'l''or' WHERE id=7;"
unfolding inline_params render placeholder mobility_api.Base.Text.replace_all
    mobility_api.Base.Int.itoa
inlined_text = refl
