-- ===== src/Stream/Asking.antt =====
-- stream.go: what the body of a query asks for, and its refusals.
use Prim.Native.String.{◌++◌}
use mobility_api.Base.{
  String, Bool, not, ◌&&◌, Option, none, some, lookup, is_some, ◌==◌, if◌then◌else◌,
}
use mobility_api.Base.Text.{to_lower, to_upper, trim_space, is_nil}
use mobility_api.Base.Int.{ℤ, pos, is_positive}
use mobility_api.Base.Float.{Float}
use mobility_api.Http.{Response, http_err, Outcome, go}
use mobility_api.PropType.{TType}
use mobility_api.Stream.{Window, QuerySpec, is_agg, lifted_ops, supported_aggs, supported_ops}

-- The decoded body of a query; a body that does not decode leaves what was decoded before.
pub record QueryBody : Type 0 where
  pub operation : String
  pub arg : Option Float
  pub aggregation : String
  pub window : Window
  pub live : Bool
  pub interval_ms : ℤ
  pub engine : String

-- Milliseconds; 500 where the request names none that is positive.
abbrev pub interval_of : ℤ → ℤ
interval_of ms = if is_positive ms then ms else pos 500

-- What the body asks for, as the fields of the specification that depend on it.
pub record Asked : Type 0 where
  pub op : String
  pub arg : Option Float
  pub agg : String
  pub window : Option Window

bad_agg : String → String → Response
bad_agg agg ogc = http_err 400 (
    "aggregation "
    ++ (agg
        ++ (" is not defined for " ++ (ogc ++ (" (supported: " ++ (supported_aggs ogc ++ ")"))))))

-- A windowed aggregation of the type.
unfoldable pub ask_aggregate : String → String → QueryBody → Outcome Asked
unfolding bad_agg is_agg
ask_aggregate ogc agg body =
    let kind = to_upper (trim_space body.window.kind) in
    if not (is_agg ogc agg)
    then Outcome.done (bad_agg body.aggregation ogc)
    else if not (kind == "COUNT") && (not (kind == "TUMBLING") && not (kind == "HOPPING"))
    then Outcome.done (http_err 400 "window type must be COUNT, TUMBLING or HOPPING")
    else if not (is_positive body.window.size)
    then Outcome.done (http_err 400 "window size must be a positive integer")
    else if (kind == "HOPPING") && not (is_positive body.window.hop)
    then Outcome.done (http_err 400 "a HOPPING window requires a positive hop")
    else go record {
      op = "";
      arg = none;
      agg = agg;
      window = some record {
        kind = kind;
        size = body.window.size;
        unit = to_upper body.window.unit;
        hop = body.window.hop;
        hop_unit = to_upper body.window.hop_unit;
      };
    }

-- A lifted transform of a TReal property.
unfoldable pub ask_transform : String → String → String → QueryBody → Outcome Asked
unfolding lifted_ops
ask_transform ogc name ptype body =
    let op = to_lower (trim_space body.operation) in
    if not (ogc == "TReal")
    then Outcome.done (
        http_err 422 (
          "continuous transforms are defined for TReal (tfloat) properties; "
          ++ (name ++ (" is " ++ ptype))))
    else elim (lookup op lifted_ops) [
      | none ↦ Outcome.done (
          http_err 400 (
            "unknown operation: "
            ++ (body.operation ++ (" (supported: " ++ (supported_ops ++ ")")))))
      | some info ↦
          if info.needs_arg && not (is_some body.arg)
          then Outcome.done (http_err 400 ("operation " ++ (op ++ " requires a scalar \"arg\"")))
          else go record { op = op; arg = body.arg; agg = ""; window = none }
    ]

unfoldable pub ask : String → String → String → QueryBody → Outcome Asked
unfolding ask_aggregate ask_transform
ask ogc name ptype body =
    let agg = to_upper (trim_space body.aggregation) in
    if is_nil agg then ask_transform ogc name ptype body else ask_aggregate ogc agg body

unfoldable pub spec_of : String → ℤ → String → String → QueryBody → Asked → QuerySpec
spec_of cid fid name ogc body asked = record {
  kind = "";
  cid = cid;
  fid = fid;
  pname = name;
  op = asked.op;
  arg = asked.arg;
  agg = asked.agg;
  window = asked.window;
  ptype = ogc;
  interval = interval_of body.interval_ms;
  engine = to_lower (trim_space body.engine);
}

-- tt, _ := tPropType(ptype): the OGC type and the column, empty for a type it does not know.
unfoldable pub ogc_of : Option TType → String
ogc_of none = ""
ogc_of (some known) = known.ogc

unfoldable pub column_of : Option TType → String
column_of none = ""
column_of (some known) = known.col
