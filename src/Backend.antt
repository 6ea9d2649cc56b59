-- ===== src/Backend.antt =====
-- backend.go: the database seam, a parameter of every handler; its transactional laws are hypotheses of the
-- theorems that need them.
pub mod Drivers
pub mod Alike
pub mod Opening
use mobility_api.Base.{ℕ, String, ◌≡◌, List, Option}
use mobility_api.Base.Int.{ℤ}
use mobility_api.Base.Float.{Float}
use mobility_api.Base.Json.{Json}
use mobility_api.Http.{Error, Result, err, Handler, go}

-- A bound argument, or a column of a row; `doc` is the JSON text of a value.
pub data Value : Type 0 where
  null : Value
  int : ℤ → Value
  float : Float → Value
  text : String → Value
  doc : Json → Value

-- The rows that a cursor yields, and the error that ended it early, if one did.
pub record Rows : Type 0 where
  pub rows : List (List Value)
  pub failure : Option Error

-- `S` is the database as the tier sees it, `T` an open transaction.
pub record Backend (S T : Type 0) : Type 0 where
  pub query_row : S → String → List Value → Result (List Value)
  pub query : S → String → List Value → Result Rows
  pub exec : S → String → List Value → Result ℕ × S
  pub begin : S → Result T
  pub tx_query_row : T → String → List Value → Result (List Value)
  pub tx_query : T → String → List Value → Result Rows
  pub tx_exec : T → String → List Value → Result ℕ × T
  pub commit : T → S → Result (Unit {0}) × S
  pub rollback : T → S → S

-- What PostgreSQL documents of transactions: a rollback, and a commit that fails, leave the
-- database as it was.
pub record IsTransactional {S T : Type 0} (db : Backend S T) : Type 0 where
  pub rollback_lem : (t : T) (s : S) → db.rollback t s ≡ s
  pub commit_fails : (t : T) (s : S) (e : Error) → (db.commit t s).0 ≡ err e → (db.commit t s).1 ≡ s

module _ {S T : Type 0} (db : Backend S T) where
  abbrev pub db_query_row : String → List Value → Handler S (Result (List Value))
  db_query_row sql args s = (go (db.query_row s sql args), s)

  abbrev pub db_query : String → List Value → Handler S (Result Rows)
  db_query sql args s = (go (db.query s sql args), s)

  abbrev pub db_exec : String → List Value → Handler S (Result ℕ)
  db_exec sql args s = (go (db.exec s sql args).0, (db.exec s sql args).1)
