-- ===== src/Spark/Scan.antt =====
-- backend_spark.go: scanSparkRow and assignSpark, which set the destinations of a scan by their kinds. A
-- destination holds a value of its kind before the scan.
use mobility_api.Base.{List, [], ◌∷◌}
use mobility_api.Base.Int.{ℤ, pos}
use mobility_api.Base.Float.{Float}
use mobility_api.Backend.{Value, null, int, float, text, doc}

-- What a destination points to: the kinds of the switch, a pointer, or any other kind.
pub data Kind : Type 0 where
  a_string : Kind
  an_int : Kind
  a_float : Kind
  some_bytes : Kind
  a_pointer : Kind → Kind
  another : Kind

-- The zero value that a new destination holds.
zero_of : (ℤ → Float) → Kind → Value
zero_of of_int a_string = text ""
zero_of of_int an_int = int (pos 0)
zero_of of_int a_float = float (of_int (pos 0))
zero_of of_int some_bytes = text ""
zero_of of_int (a_pointer k) = null
zero_of of_int another = null

-- `of_int` and `to_int` are the conversions of Go between int64 and float64.
module _ (of_int : ℤ → Float) (to_int : Float → ℤ) where
  unfoldable assign : Kind → Value → Value → Value
  assign a_string old (text s) = text s
  assign an_int old (int n) = int n
  assign an_int old (float v) = int (to_int v)
  assign a_float old (float v) = float v
  assign a_float old (int n) = float (of_int n)
  assign some_bytes old (text s) = text s
  assign some_bytes old (doc d) = doc d
  assign k old v = old

  -- assignSpark, where a pointer is set to a new destination.
  unfoldable assign_spark : Kind → Value → Value → Value
  unfolding assign zero_of
  assign_spark (a_pointer k) old null = null
  assign_spark (a_pointer k) old v = assign_spark k (zero_of of_int k) v
  assign_spark k old v = assign k old v

  -- scanSparkRow: a destination without a column gets no value.
  unfoldable scan_spark_row : List (Kind × Value) → List Value → List Value
  unfolding assign_spark
  scan_spark_row [] vals = []
  scan_spark_row ((k, old) ∷ ds) [] = assign_spark k old null ∷ scan_spark_row ds []
  scan_spark_row ((k, old) ∷ ds) (v ∷ vals) = assign_spark k old v ∷ scan_spark_row ds vals
