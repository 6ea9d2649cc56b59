-- ===== src/Spark.antt =====
-- dialect_spark.go: the inlining of parameters into SQL for the engine that binds none.
pub mod Inline
pub mod Places
pub mod Statement
pub mod Filled
pub mod Rewrite
pub mod Session
pub mod Scan
use Prim.Native.String.{◌++◌}
use mobility_api.Base.{ℕ, zero, suc, String, List, [], ◌∷◌, length}
use mobility_api.Base.Text.{replace_all}
use mobility_api.Base.Int.{ℤ, itoa, format_nat}
use mobility_api.Base.Float.{Float}
use mobility_api.Base.Json.{Json}
use mobility_api.Backend.{Value, null, int, float, text, doc}

quoted : String → String
quoted s = "'" ++ (replace_all s "'" "''" ++ "'")

-- sparkLiteral: a document is the text that it was marshalled into. The printers of a float64 and of a
-- document are parameters.
module _ (format_float : Float → String) (marshal : Json → String) where
  unfoldable pub spark_literal : Value → String
  unfolding quoted
  spark_literal null = "NULL"
  spark_literal (int n) = itoa n
  spark_literal (float v) = format_float v
  spark_literal (text s) = quoted s
  spark_literal (doc d) = quoted (marshal d)

  -- The placeholders from the last to the first; the list is of the arguments that follow the
  -- first `n`.
  unfoldable pub inline_from : ℕ → List Value → String → String
  unfolding spark_literal format_nat
  inline_from n [] sql = sql
  inline_from n (v ∷ vs) sql =
      replace_all (inline_from (suc n) vs sql) ("$" ++ format_nat (suc n)) (spark_literal v)

  -- inlineParams
  unfoldable pub inline_params : String → List Value → String
  unfolding inline_from
  inline_params sql args = inline_from 0 args sql
