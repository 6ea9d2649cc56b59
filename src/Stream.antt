-- ===== src/Stream.antt =====
-- stream.go: the data of the streaming tier: instants, windows, continuous queries, the catalogues.
pub mod Catalogue
pub mod Windows
pub mod Splitting
pub mod Counting
pub mod Tumbling
pub mod Hopping
pub mod CatchingUp
pub mod Eviction
pub mod Fanout
pub mod Closing
pub mod Engines
pub mod Sources
pub mod Registry
pub mod Issued
pub mod Asking
pub mod Requests
pub mod Accepted
pub mod Registers
pub mod Meos
pub mod Aggregates
pub mod Transform
pub mod Lifting
pub mod Events
pub mod Opening
pub mod Bridge
pub mod Delivery
use Prim.Native.Char.{code}
use mobility_api.Base.Text.{join}
use mobility_api.Base.{
  ℕ, String, Bool, true, false, List, [], ◌∷◌, Option, none, some, lookup, any, ltb, eqb,
  if◌then◌else◌, ◌==◌, map,
}
use mobility_api.Base.Int.{ℤ}
use mobility_api.Base.Float.{Float}

-- A record: `v` holds a number, `s` a text, or "t" and "f".
pub record Instant : Type 0 where
  pub t : String
  pub v : Float
  pub s : String

-- kind is "COUNT", "TUMBLING" or "HOPPING".
pub record Window : Type 0 where
  pub kind : String
  pub size : ℤ
  pub unit : String
  pub hop : ℤ
  pub hop_unit : String

-- arg is 0 where the query gives none; interval is in milliseconds.
pub record QuerySpec : Type 0 where
  pub kind : String
  pub cid : String
  pub fid : ℤ
  pub pname : String
  pub op : String
  pub arg : Option Float
  pub agg : String
  pub window : Option Window
  pub ptype : String
  pub interval : ℤ
  pub engine : String

-- a <= b, by code points.
unfoldable pub text_le : String → String → Bool
text_le String.[] b = true
text_le (String.◌∷◌ c a) String.[] = false
text_le (String.◌∷◌ c a) (String.◌∷◌ d b) =
    let rest = text_le a b in
    if ltb (code c) (code d) then true else if eqb (code c) (code d) then rest else false

-- aggByType
unfoldable pub agg_by_type : List (String × List String)
agg_by_type =
    ("TReal", "COUNT" ∷ "SUM" ∷ "AVG" ∷ "MIN" ∷ "MAX" ∷ [])
    ∷ ("TInteger", "COUNT" ∷ "SUM" ∷ "AVG" ∷ "MIN" ∷ "MAX" ∷ [])
    ∷ ("TText", "COUNT" ∷ "COUNT_DISTINCT" ∷ [])
    ∷ ("TBoolean", "COUNT" ∷ "ANY" ∷ "ALL" ∷ "COUNT_TRUE" ∷ "COUNT_FALSE" ∷ [])
    ∷ []

unfoldable pub aggs_of : Option (List String) → List String
aggs_of none = []
aggs_of (some aggs) = aggs

-- aggByType[ptype][agg]
unfoldable pub is_agg : String → String → Bool
unfolding aggs_of agg_by_type
is_agg ptype agg = any (λ a. a == agg) (aggs_of (lookup ptype agg_by_type))

-- aggregations, the union over the types, as a test.
unfoldable pub is_aggregation : String → Bool
unfolding agg_by_type
is_aggregation agg = any (λ e. any (λ a. a == agg) e.1) agg_by_type

pub record OpInfo : Type 0 where
  pub sql_name : String
  pub needs_arg : Bool

unfoldable pub op_info : String → Bool → OpInfo
op_info name arg = record { sql_name = name; needs_arg = arg }

unfoldable pub lifted_ops : List (String × OpInfo)
unfolding op_info
lifted_ops =
    ("ln", op_info "ln" false)
    ∷ ("exp", op_info "exp" false)
    ∷ ("log10", op_info "log10" false)
    ∷ ("ceil", op_info "ceil" false)
    ∷ ("floor", op_info "floor" false)
    ∷ ("abs", op_info "abs" false)
    ∷ ("degrees", op_info "degrees" false)
    ∷ ("radians", op_info "radians" false)
    ∷ ("sin", op_info "sin" false)
    ∷ ("cos", op_info "cos" false)
    ∷ ("tan", op_info "tan" false)
    ∷ ("add", op_info "tAdd" true)
    ∷ ("sub", op_info "tSub" true)
    ∷ ("mul", op_info "tMul" true)
    ∷ ("div", op_info "tDiv" true)
    ∷ []

insert_name : String → List String → List String
insert_name s [] = s ∷ []
insert_name s (t ∷ ts) = let rest = insert_name s ts in if text_le s t then s ∷ t ∷ ts else t ∷ rest

sort_names : List String → List String
unfolding insert_name
sort_names [] = []
sort_names (s ∷ ss) = insert_name s (sort_names ss)

-- supportedAggs and supportedOps
unfoldable pub supported_aggs : String → String
unfolding sort_names aggs_of agg_by_type
supported_aggs ptype = join ", " (sort_names (aggs_of (lookup ptype agg_by_type)))

unfoldable pub supported_ops : String
unfolding sort_names lifted_ops
supported_ops = join ", " (sort_names (map (λ e. e.0) lifted_ops))
