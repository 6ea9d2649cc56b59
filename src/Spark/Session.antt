-- ===== src/Spark/Session.antt =====
-- backend_spark.go: the seam over a Spark Connect session. `run` is Sql and Collect: the rows of a
-- statement, or its error, and what it leaves.
use mobility_api.Base.{ℕ, String, ◌≡◌, refl, ◌∙◌, List, [], ◌∷◌, none}
use mobility_api.Base.Float.{Float}
use mobility_api.Base.Json.{Json}
use mobility_api.Backend.{Value, Backend, Rows}
use mobility_api.Http.{Error, no_rows, Result, ok, err, Outcome, go, done, Handler, Response}
use mobility_api.Store.{in_transaction, close, tx_exec}
use mobility_api.Spark.{inline_params}
use mobility_api.Spark.Rewrite.{rewrite_spark_sql}

rows_of : Result (List (List Value)) → Result Rows
rows_of (err e) = err e
rows_of (ok rs) = ok record { rows = rs; failure = none }

first_row : Result Rows → Result (List Value)
first_row (err e) = err e
first_row (ok r) = elim r.rows [ [] ↦ err no_rows | row ∷ rows ↦ ok row ]

-- The driver counts no rows.
executed : Result (List (List Value)) → Result ℕ
executed (err e) = err e
executed (ok rs) = ok 0

module _ {S : Type 0} (format_float : Float → String) (marshal : Json → String)
    (run : S → String → Result (List (List Value)) × S) where
  -- prep
  unfoldable prep : String → List Value → String
  prep sql args = inline_params format_float marshal (rewrite_spark_sql sql) args

  spark_query : S → String → List Value → Result Rows
  unfolding rows_of prep
  spark_query s sql args = rows_of (run s (prep sql args)).0

  spark_exec : S → String → List Value → Result ℕ × S
  unfolding executed prep
  spark_exec s sql args = (executed (run s (prep sql args)).0, (run s (prep sql args)).1)

  -- sparkBackend and sparkTx, whose statements are those of the session itself.
  unfoldable pub spark_backend : Backend S S
  unfolding spark_query spark_exec first_row
  spark_backend = record {
    query_row = λ s sql args. first_row (spark_query s sql args);
    query = spark_query;
    exec = spark_exec;
    begin = λ s. ok s;
    tx_query_row = λ t sql args. first_row (spark_query t sql args);
    tx_query = spark_query;
    tx_exec = spark_exec;
    commit = λ t s. (ok tt, t);
    rollback = λ t s. t;
  }

  -- What the session is left with by statements, each rewritten for Spark and with its arguments filled
  -- in: each runs on what the one before it left, whether that one failed or not.
  unfoldable pub session_after : List (String × List Value) → S → S
  session_after [] s = s
  session_after ((sql, args) ∷ rest) s =
      session_after rest (run s (inline_params format_float marshal (rewrite_spark_sql sql) args)).1

  module _ {A : Type 0} (fail : Error → Response) where
    close_spark : (s : S) (p : Outcome A × S) → close spark_backend fail s p ≡ p
    unfolding spark_backend
    close_spark s (done r, t) = refl
    close_spark s (go a, t) = refl

    -- A transaction on Spark is its body run on the session.
    in_transaction_body :
        (body : Handler S A) (s : S) → in_transaction spark_backend fail body s ≡ body s
    unfolding spark_backend in_transaction
    in_transaction_body body s = close_spark s (body s)

    -- A body that executes the statements in its transaction and then ends with `o`.
    unfoldable pub executing : List (String × List Value) → Outcome A → Handler S A
    unfolding spark_backend
    executing [] o t = (o, t)
    executing ((sql, args) ∷ rest) o t = executing rest o (tx_exec spark_backend sql args t).1

    executing-session_after :
        (statements : List (String × List Value)) (o : Outcome A) (t : S)
        → executing statements o t ≡ (o, session_after statements t)
    unfolding executing session_after spark_exec prep
    executing-session_after [] o t = refl
    executing-session_after ((sql, args) ∷ rest) o t =
        executing-session_after rest o
          (run t (inline_params format_float marshal (rewrite_spark_sql sql) args)).1

    -- On Spark the statements of a transaction run on the session, in their order and in Spark's spelling,
    -- and what they did stays, also where the body answers early after them: nothing is rolled back.
    pub in_transaction-spark_backend :
        (statements : List (String × List Value)) (o : Outcome A) (s : S)
        → in_transaction spark_backend fail (executing statements o) s
          ≡ (o, session_after statements s)
    in_transaction-spark_backend statements o s =
        in_transaction_body (executing statements o) s ∙ executing-session_after statements o s
