-- ===== src/Stream/Engines.antt =====
-- stream.go, stream_engine_bridge.go and stream_engine_meos.go: the engines behind the streaming seam,
-- how one is chosen, and what each takes.
use mathlib.Core.List
use Prim.Native.String.{◌++◌}
use mobility_api.Base.{
  String, Bool, false, not, List, [], ◌∷◌, Option, none, some, lookup, ◌==◌, ◌||◌, if◌then◌else◌,
}
use mobility_api.Base.Text.{to_lower, trim_space, is_nil}
use mobility_api.Base.Float.{Float}
use mobility_api.Http.{failed, error_text, Result, ok, err}
use mobility_api.Interp.{quote}
use mobility_api.Stream.{QuerySpec, OpInfo, lifted_ops, is_aggregation}

-- What Submit does: it starts the query, or refuses it.
pub record Engine : Type 0 where
  pub name : String
  pub submit : QuerySpec → Result (Unit {0})

-- The process's surroundings: its environment, strings.Fields of the standard library, the start of a
-- job by its command line, strconv.FormatFloat(v, 'g', -1, 64), and whether the build has MEOS.
pub record Env : Type 0 where
  pub getenv : String → String
  pub fields : String → List String
  pub spawn : List String → Result (Unit {0})
  pub format_float : Float → String
  pub has_meos : Bool

zero_float : Float
zero_float = Float.dec false 0 0 0

unfoldable pub arg_of : Option Float → Float
unfolding zero_float
arg_of none = zero_float
arg_of (some v) = v

start_error : String → Result (Unit {0}) → Result (Unit {0})
start_error name (ok u) = ok u
start_error name (err e) = err (failed ("start " ++ (name ++ (" bridge job: " ++ error_text e))))

-- The command line of a job: the prefix, the operation, and its operand where it takes one.
unfoldable bridge_args : Env → List String → QuerySpec → OpInfo → List String
unfolding arg_of
bridge_args env argv spec info =
    List.◌++◌ argv
      (spec.op ∷ (if info.needs_arg then env.format_float (arg_of spec.arg) ∷ [] else []))

-- bridgeEngine.Submit
unfoldable bridge_submit : Env → String → List String → QuerySpec → Result (Unit {0})
unfolding bridge_args start_error lifted_ops
bridge_submit env name argv spec =
    if not (is_nil spec.agg)
    then err (
        failed (
          "the "
          ++ (name
              ++ " engine runs transforms; windowed aggregation is served by the in-process engine")))
    else elim (lookup spec.op lifted_ops) [
      | none ↦ err (failed ("unknown operation " ++ quote spec.op))
      | some info ↦ start_error name (env.spawn (bridge_args env argv spec info))
    ]

-- newBridgeEngine, newFlinkEngine and newKafkaEngine
unfoldable new_bridge_engine : Env → String → String → Result Engine
unfolding bridge_submit
new_bridge_engine env name cmd_env =
    if is_nil (trim_space (env.getenv cmd_env))
    then err
        (failed (name ++ (" engine requires " ++ (cmd_env ++ " (the bridge-job command prefix)"))))
    else ok
        record { name = name; submit = bridge_submit env name (env.fields (env.getenv cmd_env)) }

unfoldable new_flink_engine : Env → Result Engine
unfolding new_bridge_engine
new_flink_engine env = new_bridge_engine env "flink" "MFAPI_FLINK_CMD"

unfoldable new_kafka_engine : Env → Result Engine
unfolding new_bridge_engine
new_kafka_engine env = new_bridge_engine env "kafka" "MFAPI_KAFKA_CMD"

-- meosEngine.Submit
unfoldable pub meos_submit : QuerySpec → Result (Unit {0})
unfolding is_aggregation lifted_ops
meos_submit spec =
    if not (is_nil spec.agg)
    then (if is_aggregation spec.agg
        then ok tt
        else err (failed ("unknown aggregation " ++ quote spec.agg)))
    else elim (lookup spec.op lifted_ops) [
      | none ↦ err (failed ("unknown operation " ++ quote spec.op))
      | some info ↦ ok tt
    ]

-- defaultStreamEngine, in the build with MEOS and in the build without.
unfoldable default_stream_engine : Env → Result Engine
unfolding meos_submit
default_stream_engine env =
    if env.has_meos
    then ok record { name = "meos-local"; submit = meos_submit }
    else err (failed "streaming engine not built: rebuild with -tags meos (libmeos required)")

-- selectEngine
unfoldable pub select_engine : Env → Result Engine
unfolding new_flink_engine new_kafka_engine default_stream_engine
select_engine env =
    let name = to_lower (env.getenv "MFAPI_STREAM_ENGINE") in
    if name == "flink"
    then new_flink_engine env
    else if name == "kafka"
    then new_kafka_engine env
    else default_stream_engine env

-- The engines built so far: the process's, and those of the queries that name one.
pub record Engines : Type 0 where
  pub process : Option Engine
  pub cache : List (String × Engine)

kept_process : Result Engine → Engines → Result Engine × Engines
kept_process (err x) es = (err x, es)
kept_process (ok e) es = (ok e, record es { process = some e })

unfoldable pub process_engine : Result Engine → Option Engine → Engines → Result Engine × Engines
unfolding kept_process
process_engine built (some e) es = (ok e, es)
process_engine built none es = kept_process built es

unfoldable pub stream_engine : Env → Engines → Result Engine × Engines
unfolding select_engine process_engine
stream_engine env es = process_engine (select_engine env) es.process es

unfoldable pub make_named : Env → String → Result Engine
unfolding new_flink_engine new_kafka_engine default_stream_engine
make_named env name =
    if name == "flink"
    then new_flink_engine env
    else if name == "kafka"
    then new_kafka_engine env
    else if name == "meos" || (name == "meos-local" || name == "local")
    then default_stream_engine env
    else err (failed ("unknown stream engine " ++ (quote name ++ " (flink|kafka|meos-local)")))

kept_named : String → Result Engine → Engines → Result Engine × Engines
kept_named name (err x) es = (err x, es)
kept_named name (ok e) es = (ok e, record es { cache = (name, e) ∷ es.cache })

unfoldable pub cached_engine :
    String → Result Engine → Option Engine → Engines → Result Engine × Engines
unfolding kept_named
cached_engine name built (some e) es = (ok e, es)
cached_engine name built none es = kept_named name built es

unfoldable pub engine_named : Env → String → Engines → Result Engine × Engines
unfolding make_named cached_engine
engine_named env name es = cached_engine name (make_named env name) (lookup name es.cache) es

-- engineFor
unfoldable pub engine_for : Env → String → Engines → Result Engine × Engines
unfolding stream_engine engine_named
engine_for env given es =
    let name = to_lower (trim_space given) in
    if is_nil name then stream_engine env es else engine_named env name es
