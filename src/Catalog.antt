-- ===== src/Catalog.antt =====
-- catalog_gen.go: the MEOS temporal types and the operations on temporal numbers.
pub mod Index
use mobility_api.Base.{String, Bool, true, false, List, [], ◌∷◌}

pub record TemporalType : Type 0 where
  pub name : String
  pub base : String
  pub box : String
  pub mfjson : String
  pub spatial : Bool
  pub number : Bool
  pub linear : Bool

abbrev temporal_type : String → String → String → String → Bool → Bool → Bool → TemporalType
temporal_type name base box mfjson spatial number linear = record {
  name = name;
  base = base;
  box = box;
  mfjson = mfjson;
  spatial = spatial;
  number = number;
  linear = linear;
}

abbrev pub temporal_types : List TemporalType
temporal_types =
    temporal_type "tbigint" "int8" "tbox" "MovingBigInteger" false true false
    ∷ temporal_type "tbool" "bool" "tstzspan" "MovingBoolean" false false false
    ∷ temporal_type "tcbuffer" "cbuffer" "stbox" "MovingCircularBuffer" true false true
    ∷ temporal_type "tdouble2" "double2" "tstzspan" "" false false true
    ∷ temporal_type "tdouble3" "double3" "tstzspan" "" false false true
    ∷ temporal_type "tdouble4" "double4" "tstzspan" "" false false true
    ∷ temporal_type "tfloat" "float8" "tbox" "MovingFloat" false true true
    ∷ temporal_type "tgeogpoint" "geography" "stbox" "MovingPoint" true false true
    ∷ temporal_type "tgeography" "geography" "stbox" "MovingGeometry" true false false
    ∷ temporal_type "tgeometry" "geometry" "stbox" "MovingGeometry" true false false
    ∷ temporal_type "tgeompoint" "geometry" "stbox" "MovingPoint" true false true
    ∷ temporal_type "th3index" "h3index" "stbox" "MovingH3Index" true false false
    ∷ temporal_type "tint" "int4" "tbox" "MovingInteger" false true false
    ∷ temporal_type "tjsonb" "jsonb" "tstzspan" "MovingJsonb" false false false
    ∷ temporal_type "tnpoint" "npoint" "stbox" "MovingNetworkPoint" true false true
    ∷ temporal_type "tpcpatch" "pcpatch" "tpcbox" "MovingPCPatch" true false false
    ∷ temporal_type "tpcpoint" "pcpoint" "tpcbox" "MovingPCPoint" true false false
    ∷ temporal_type "tpose" "pose" "stbox" "MovingPose" true false true
    ∷ temporal_type "tposechain" "posechain" "stbox" "MovingPoseChain" true false true
    ∷ temporal_type "tquadbin" "quadbin" "stbox" "MovingQuadbin" true false false
    ∷ temporal_type "trgeometry" "pose" "stbox" "MovingRigidGeometry" true false true
    ∷ temporal_type "ts2cell" "s2cell" "stbox" "MovingS2Cell" true false false
    ∷ temporal_type "ttext" "text" "tstzspan" "MovingText" false false false
    ∷ []

pub record MathOp : Type 0 where
  pub sql_name : String
  pub symbol : String
  pub arg : String

abbrev math_op : String → String → String → MathOp
math_op sql_name symbol arg = record { sql_name = sql_name; symbol = symbol; arg = arg }

abbrev pub math_ops : List MathOp
math_ops =
    math_op "abs" "tnumber_abs" ""
    ∷ math_op "ceil" "tfloat_ceil" ""
    ∷ math_op "cos" "tfloat_cos" ""
    ∷ math_op "degrees" "tfloat_degrees" "bool"
    ∷ math_op "derivative" "temporal_derivative" ""
    ∷ math_op "exp" "tfloat_exp" ""
    ∷ math_op "floor" "tfloat_floor" ""
    ∷ math_op "ln" "tfloat_ln" ""
    ∷ math_op "log10" "tfloat_log10" ""
    ∷ math_op "radians" "tfloat_radians" ""
    ∷ math_op "round" "temporal_round" "int"
    ∷ math_op "scaleTime" "temporal_scale_time" "const Interval *"
    ∷ math_op "setInterp" "temporal_set_interp" "interpType"
    ∷ math_op "shiftTime" "temporal_shift_time" "const Interval *"
    ∷ math_op "sin" "tfloat_sin" ""
    ∷ math_op "tAdd" "add_tfloat_float" "double"
    ∷ math_op "tDiv" "div_tfloat_float" "double"
    ∷ math_op "tMul" "mul_tfloat_float" "double"
    ∷ math_op "tSub" "sub_tfloat_float" "double"
    ∷ math_op "tan" "tfloat_tan" ""
    ∷ math_op "trend" "tnumber_trend" ""
    ∷ []
