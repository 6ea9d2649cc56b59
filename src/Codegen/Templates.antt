-- ===== src/Codegen/Templates.antt =====
-- tools/codegen/main.go: the texts of the generated files around their entries, and what renderDispatch
-- and render put between them.
use Prim.Native.String.{◌++◌}
use mobility_api.Base.{
  ℕ, suc, String, Bool, List, [], ◌∷◌, Option, none, some, lookup, map, if◌then◌else◌,
}
use mobility_api.Base.Text.{is_nil, unlines}
use mobility_api.Interp.{quote}
use mobility_api.Stream.{text_le}
use mobility_api.Codegen.{MathOperation, arg_conversions, sort}

abbrev dispatch_head : List String
dispatch_head =
    "//go:build meos" ∷ ""
    ∷ "// Code generated by tools/codegen from the MEOS-API catalog. DO NOT EDIT." ∷ "//"
    ∷ "// Regenerate with:" ∷ "//"
    ∷ "//\tgo run ./tools/codegen -catalog <meos-idl.json> -o-meos mathops_meos_gen.go" ∷ "//"
    ∷ "// One case per operation the catalog states over a temporal number, calling the"
    ∷ "// MEOS symbol the catalog names. An operation whose further parameter has a type"
    ∷ "// the single value a query carries cannot fill, an interval or an"
    ∷ "// interpolation, gets no case." ∷ "" ∷ "package main" ∷ "" ∷ "/*" ∷ "#cgo pkg-config: meos"
    ∷ "#include <meos.h>" ∷ "*/" ∷ "import \"C\"" ∷ ""
    ∷ "// callMathOp applies the operation named by its SQL name to a temporal number,"
    ∷ "// filling any further parameter from arg. It answers false when the operation"
    ∷ "// is not one this dispatch serves, which the caller reports as an unknown"
    ∷ "// operation rather than as a failed call."
    ∷ "func callMathOp(sqlName string, temp *C.Temporal, arg float64) (*C.Temporal, bool) {"
    ∷ "\tswitch sqlName {" ∷ []

abbrev dispatch_tail : List String
dispatch_tail = "\t}" ∷ "\treturn nil, false" ∷ "}" ∷ []

abbrev types_head : List String
types_head =
    "// Code generated by tools/codegen from the MEOS-API catalog. DO NOT EDIT." ∷ "//"
    ∷ "// Regenerate with:" ∷ "//"
    ∷ "//\tgo run ./tools/codegen -catalog <meos-idl.json> -o catalog_gen.go" ∷ "//"
    ∷ "// The source is meos-idl.json#/temporalTypes, which MobilityDB/MEOS-API derives"
    ∷ "// from meos/src/temporal/meos_catalog.c (the type names, each temporal type's"
    ∷ "// base and bounding box, and the predicates temporal_type, tnumber_type,"
    ∷ "// tspatial_type and temptype_supports_linear) and meos/src/temporal/type_out.c"
    ∷ "// (temptype_as_mfjson_sb, the MF-JSON type token)." ∷ "" ∷ "package main" ∷ ""
    ∷ "// TemporalType is one MEOS temporal type, as MEOS's own catalog describes it."
    ∷ "// MFJSON is empty for a type asMFJSON does not write, so an empty token is what"
    ∷ "// says a type has no MF-JSON form." ∷ "type TemporalType struct {" ∷ "\tName    string"
    ∷ "\tBase    string" ∷ "\tBox     string" ∷ "\tMFJSON  string" ∷ "\tSpatial bool"
    ∷ "\tNumber  bool" ∷ "\tLinear  bool" ∷ "}" ∷ ""
    ∷ "// temporalTypes is every temporal type MEOS declares, ordered by name."
    ∷ "var temporalTypes = []TemporalType{" ∷ []

abbrev ops_head : List String
ops_head =
    "}" ∷ "" ∷ "// temporalTypeByName indexes temporalTypes by the MEOS type name."
    ∷ "var temporalTypeByName = func() map[string]*TemporalType {"
    ∷ "\tm := make(map[string]*TemporalType, len(temporalTypes))"
    ∷ "\tfor i := range temporalTypes {" ∷ "\t\tm[temporalTypes[i].Name] = &temporalTypes[i]"
    ∷ "\t}" ∷ "\treturn m" ∷ "}()" ∷ ""
    ∷ "// MathOp is one MEOS function that takes a temporal number and answers one."
    ∷ "// SQLName is the name the operation carries on every engine, Symbol the MEOS C"
    ∷ "// symbol behind it, and Arg the C type of its one further parameter, empty when"
    ∷ "// it takes none." ∷ "type MathOp struct {" ∷ "\tSQLName string" ∷ "\tSymbol  string"
    ∷ "\tArg     string" ∷ "}" ∷ ""
    ∷ "// mathOps is every such function the catalog states, ordered by SQL name."
    ∷ "var mathOps = []MathOp{" ∷ []

abbrev index_tail : List String
index_tail =
    "}" ∷ "" ∷ "// mathOpBySQLName indexes mathOps by the SQL name. A name several functions"
    ∷ "// carry keeps them all, so a caller resolves it rather than reading whichever"
    ∷ "// entry a map happened to hold." ∷ "var mathOpBySQLName = func() map[string][]*MathOp {"
    ∷ "\tm := map[string][]*MathOp{}" ∷ "\tfor i := range mathOps {"
    ∷ "\t\tm[mathOps[i].SQLName] = append(m[mathOps[i].SQLName], &mathOps[i])" ∷ "\t}"
    ∷ "\treturn m" ∷ "}()" ∷ []

call_of : MathOperation → String → String
call_of op conv =
    "\tcase "
    ++ (quote op.sql_name
        ++ (":\n\t\treturn C."
            ++ (op.symbol
                ++ (if is_nil conv then "(temp), true\n" else "(temp, " ++ (conv ++ "), true\n")))))

in_case : MathOperation → Option String → String × ℕ → String × ℕ
unfolding call_of
in_case op none later = later
in_case op (some conv) later = (call_of op conv ++ later.0, suc later.1)

-- The cases of the operations that the value of a query fills, and how many they are.
unfoldable pub cases : List MathOperation → String × ℕ
unfolding in_case
cases [] = ("", 0)
cases (op ∷ ops) = in_case op (lookup op.arg_canonical arg_conversions) (cases ops)

-- renderDispatch, before format.Source
unfoldable pub render_dispatch : List MathOperation → String × ℕ
unfolding cases unlines
render_dispatch ops =
    (unlines dispatch_head ++ ((cases ops).0 ++ unlines dispatch_tail), (cases ops).1)

-- An entry of the registry of temporal types.
pub record TypeEntry : Type 0 where
  pub base : String
  pub box : String
  pub mfjson : String
  pub spatial : Bool
  pub number : Bool
  pub linear : Bool

truth : Bool → String
truth b = if b then "true" else "false"

type_line : String × TypeEntry → String
unfolding truth
type_line (name, t) =
    "\t{Name: "
    ++ (quote name
        ++ (", Base: "
            ++ (quote t.base
                ++ (", Box: "
                    ++ (quote t.box
                        ++ (", MFJSON: "
                            ++ (quote t.mfjson
                                ++ (", Spatial: "
                                    ++ (truth t.spatial
                                        ++ (", Number: "
                                            ++ (truth t.number
                                                ++ (", Linear: "
                                                    ++ (truth t.linear ++ "},\n")))))))))))))

op_line : MathOperation → String
op_line op =
    "\t{SQLName: "
    ++ (quote op.sql_name
        ++ (", Symbol: " ++ (quote op.symbol ++ (", Arg: " ++ (quote op.arg ++ "},\n")))))

join_all : List String → String
join_all [] = ""
join_all (s ∷ ss) = s ++ join_all ss

-- render, before format.Source; the names of the types are put in order.
unfoldable pub render : List (String × TypeEntry) → List MathOperation → String
unfolding type_line op_line join_all unlines
render types ops =
    unlines types_head
    ++ (join_all (map type_line (sort (λ a b. text_le a.0 b.0) types))
        ++ (unlines ops_head ++ (join_all (map op_line ops) ++ unlines index_tail)))
