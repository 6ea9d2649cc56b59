-- ===== src/Tests/Engine.antt =====
-- The engine over a small libmeos, in which a temporal value is the text that it is read from.
use Prim.Native.Char.{code}
use mobility_api.Base.{
  ℕ, zero, suc, String, ◌≡◌, refl, Bool, true, false, eqb, if◌then◌else◌, List, [], ◌∷◌, ◌++◌,
  Option, none, some, length, map,
}
use mobility_api.Base.Int.{pos}
use mobility_api.Base.Float.{Float}
use mobility_api.Base.Json.{Json}
use mobility_api.Http.{ok}
use mobility_api.Stream.{
  Instant, QuerySpec, OpInfo, op_info, lifted_ops, is_agg, agg_by_type, aggs_of,
}
use mobility_api.Stream.Windows.{next, cancelled}
use mobility_api.Stream.Meos.{Meos, Operand, lift_instant, call_math_op}
use mobility_api.Stream.Aggregates.{window_aggregate, synth_window_text, escape_text, bool_text}
use mobility_api.Stream.Aggregates.Serves.{window_aggregate-is_agg}
use mobility_api.Stream.Transform.{meos_run, transform_event}
use mobility_api.Stream.Lifting.{Ends, times, meos_run-lifts}

-- The number of @ in a text.
abbrev ats : String → ℕ
ats String.[] = 0
ats (String.◌∷◌ c s) = let rest = ats s in if eqb (code c) b'@' then suc rest else rest

abbrev seven : Float
seven = Float.dec false 7 0 0

-- No number is printed as a text that is refused.
abbrev printed : Float → String
printed (Float.dec s m a b) = "7"
printed (Float.inf s) = "Inf"
printed Float.nan = "NaN"

abbrev reads : String → Option String
reads s = if eqb (ats s) 0 then none else some s

abbrev library : Meos String
library = record {
  tfloat_in = reads;
  ttext_in = reads;
  tbool_in = reads;
  call = λ name t arg. some t;
  tfloat_out = λ t. some t;
  num_instants = ats;
  min_value = λ t. seven;
  max_value = λ t. seven;
  avg_value = λ t. seven;
  float_values = λ t. [];
  text_values = λ t. [];
  bool_values = λ t. [];
  format_float = printed;
  refusal = λ s. "invalid syntax";
  plus = λ a b. a;
}

abbrev record_at : String → Float → Instant
record_at t v = record { t = t; v = v; s = "t" }

abbrev two_records : List Instant
two_records = record_at "2011-06-03T18:57:53Z" seven ∷ record_at "2011-06-03T18:57:54Z" seven ∷ []

window_aggregate-is_agg_example :
    (v : Json) × (window_aggregate library "TBoolean" "COUNT_TRUE" two_records ≡ ok (v, 2))
unfolding synth_window_text mobility_api.Base.Int.digit escape_text bool_text is_agg
window_aggregate-is_agg_example =
    window_aggregate-is_agg library two_records
      (record { numbers = (_, refl, refl); texts = (_, refl, refl); booleans = (_, refl, refl) })
      "TBoolean" "COUNT_TRUE" refl

abbrev pub absolute : QuerySpec
absolute = record {
  kind = "live";
  cid = "ships";
  fid = pos 1;
  pname = "speed";
  op = "abs";
  arg = none;
  agg = "";
  window = none;
  ptype = "TReal";
  interval = pos 100;
  engine = "";
}

abbrev unprinted : Instant
unprinted = record_at "2011-06-03T18:57:55Z" (Float.inf false)

abbrev lifted_two : List Instant
lifted_two =
    record { t = "2011-06-03T18:57:53Z"; v = seven; s = "" }
    ∷ record { t = "2011-06-03T18:57:54Z"; v = seven; s = "" }
    ∷ []

meos_run-lifts_example :
    (meos_run library absolute (map next two_records ++ (cancelled ∷ []))
      ≡ (map (transform_event absolute) lifted_two, "stopped"))
    × (times lifted_two ≡ times two_records)
unfolding lift_instant lifted_ops call_math_op mobility_api.Stream.Meos.dispatch
    mobility_api.Base.Float.parse_float mobility_api.Base.Text.trim_space mobility_api.Base.Text.cut
    mobility_api.Base.Text.to_lower mobility_api.Base.Text.take_digits
    mobility_api.Base.Int.parse_nat
meos_run-lifts_example =
    meos_run-lifts library absolute refl two_records lifted_two (refl, (refl, tt)) (Ends.ended [])
