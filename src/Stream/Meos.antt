-- ===== src/Stream/Meos.antt =====
-- stream_engine_meos.go and mathops_meos_gen.go: the lifted operations on one record. libmeos is a
-- parameter, as are the printers and readers of its values.
use Prim.Native.String.{◌++◌}
use mobility_api.Base.{ℕ, String, Bool, true, not, List, [], ◌∷◌, Option, none, some, lookup, eqb}
use mobility_api.Base.Text.{cut, trim_space}
use mobility_api.Base.Float.{Float, dec, inf, nan, parse_float}
use mobility_api.Http.{Result, ok, err, failed}
use mobility_api.Interp.{quote}
use mobility_api.Stream.{Instant, OpInfo, lifted_ops}

-- The further argument of a C call.
pub data Operand : Type 0 where
  no_operand : Operand
  double : Float → Operand
  int_of : Float → Operand
  flag : Bool → Operand

-- The functions of libmeos that the engine calls; a null pointer is none. `T` is a temporal value.
-- `format_float` is strconv.FormatFloat(v, 'g', -1, 64), `refusal` the text of the error of ParseFloat, and
-- `plus` the addition of float64.
pub record Meos (T : Type 0) : Type 0 where
  pub tfloat_in : String → Option T
  pub ttext_in : String → Option T
  pub tbool_in : String → Option T
  pub call : String → T → Operand → Option T
  pub tfloat_out : T → Option String
  pub num_instants : T → ℕ
  pub min_value : T → Float
  pub max_value : T → Float
  pub avg_value : T → Float
  pub float_values : T → List Float
  pub text_values : T → List String
  pub bool_values : T → List Bool
  pub format_float : Float → String
  pub refusal : String → String
  pub plus : Float → Float → Float

-- arg != 0
is_nonzero : Float → Bool
is_nonzero (dec s m a b) = not (eqb m 0)
is_nonzero (inf s) = true
is_nonzero nan = true

plain : String → Float → String × Operand
plain symbol arg = (symbol, no_operand)

-- The cases of callMathOp: the C function and its argument.
unfoldable pub dispatch : List (String × (Float → String × Operand))
unfolding plain is_nonzero
dispatch =
    ("abs", plain "tnumber_abs")
    ∷ ("ceil", plain "tfloat_ceil")
    ∷ ("cos", plain "tfloat_cos")
    ∷ ("degrees", λ arg. ("tfloat_degrees", flag (is_nonzero arg)))
    ∷ ("derivative", plain "temporal_derivative")
    ∷ ("exp", plain "tfloat_exp")
    ∷ ("floor", plain "tfloat_floor")
    ∷ ("ln", plain "tfloat_ln")
    ∷ ("log10", plain "tfloat_log10")
    ∷ ("radians", plain "tfloat_radians")
    ∷ ("round", λ arg. ("temporal_round", int_of arg))
    ∷ ("sin", plain "tfloat_sin")
    ∷ ("tAdd", λ arg. ("add_tfloat_float", double arg))
    ∷ ("tDiv", λ arg. ("div_tfloat_float", double arg))
    ∷ ("tMul", λ arg. ("mul_tfloat_float", double arg))
    ∷ ("tSub", λ arg. ("sub_tfloat_float", double arg))
    ∷ ("tan", plain "tfloat_tan")
    ∷ ("trend", plain "tnumber_trend")
    ∷ []

-- The text in front of the first @, as a number; the record keeps its own time.
before_at : Option (String × String) → String → String
before_at none s = s
before_at (some (v, t)) s = v

-- `reason` is the text of ParseFloat's error.
unfoldable pub read_value : String → String → String → Option Float → Result Instant
read_value reason s t none =
    err (failed ("cannot parse MEOS output " ++ (quote s ++ (": " ++ reason))))
read_value reason s t (some v) = ok (record { t = t; v = v; s = "" })

-- parseInstantText; `refusal` is the text of ParseFloat's error on a text that is no number.
unfoldable pub parse_instant_text : (String → String) → String → String → Result Instant
unfolding before_at read_value
parse_instant_text refusal s t =
    let number = trim_space (before_at (cut b'@' s) s) in
    read_value (refusal number) s t (parse_float number)

module _ {T : Type 0} (m : Meos T) where
  -- callMathOp: none where the dispatch has no case.
  unfoldable pub call_math_op : String → T → Float → Option (Option T)
  call_math_op name temp arg = elim (lookup name dispatch) [
    | none ↦ none
    | some f ↦ some (m.call (f arg).0 temp (f arg).1)
  ]

  unfoldable pub written : String → Instant → Option String → Result Instant
  unfolding parse_instant_text
  written op i none =
      err (failed ("operation " ++ (quote op ++ " produced a result MEOS cannot write")))
  written op i (some s) = parse_instant_text m.refusal s i.t

  unfoldable pub called : String → OpInfo → Instant → Option (Option T) → Result Instant
  unfolding written
  called op info i none = err (
      failed (
        "the operation "
        ++ (quote op
            ++ (" names the MEOS function "
                ++ (quote info.sql_name ++ ", which this build does not call")))))
  called op info i (some none) =
      err (failed ("operation " ++ (quote op ++ " produced no result (domain error?)")))
  called op info i (some (some res)) = written op i (m.tfloat_out res)

  unfoldable pub lifted : String → Float → Instant → T → Option OpInfo → Result Instant
  unfolding called
  lifted op arg i temp none = err (failed ("unknown operation " ++ quote op))
  lifted op arg i temp (some info) = called op info i (call_math_op info.sql_name temp arg)

  literal : Instant → String
  literal i = m.format_float i.v ++ "@2000-01-01 00:00:00+00"

  unfoldable pub read_literal : String → Float → Instant → Option T → Result Instant
  unfolding lifted literal
  read_literal op arg i none = err (failed ("tfloat_in failed for " ++ quote (literal i)))
  read_literal op arg i (some temp) = lifted op arg i temp (lookup op lifted_ops)

  -- liftInstant
  unfoldable pub lift_instant : String → Float → Instant → Result Instant
  unfolding read_literal
  lift_instant op arg i = read_literal op arg i (m.tfloat_in (literal i))
