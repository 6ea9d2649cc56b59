-- ===== src/Tests/Feeds.antt =====
-- An export in two row groups, and the generator on a catalog of three functions.
use mobility_api.Base.{
  ℕ, zero, suc, ◌≤◌, ◌<◌, arith, ◌≡◌, refl, String, Bool, true, false, List, [], ◌∷◌, length, All,
  concat, leb, Option, none,
}
use mobility_api.Items.Export.{row_groups}
use mobility_api.Items.Export.Groups.{Covers, row_groups-Covers}
use mobility_api.Codegen.{Param, Function, MathOperation, math_operations, op_le}
use mobility_api.Http.{ok}
use mobility_api.Codegen.Templates.{TypeEntry}
use mobility_api.Codegen.Generate.{Run, generate}
use mobility_api.Codegen.Written.{IsWritten, generate-IsWritten}
use mobility_api.Codegen.Selected.{IsSorted, IsSelection, math_operations-IsSorted}

abbrev five_rows : List ℕ
five_rows = 1 ∷ 2 ∷ 3 ∷ 4 ∷ 5 ∷ []

-- A writer that takes two groups and then no other.
abbrev two_groups : List (List ℕ) → List ℕ → Bool
two_groups done g = leb (length done) 1

row_groups-Covers_example : Covers two_groups 2 (row_groups two_groups 2 [] [] five_rows) five_rows
row_groups-Covers_example = row_groups-Covers two_groups 2 (omega arith) five_rows

row_groups_refused : row_groups two_groups 2 [] [] five_rows ≡ (1 ∷ 2 ∷ []) ∷ (3 ∷ 4 ∷ []) ∷ []
unfolding row_groups
row_groups_refused = refl

abbrev number_param : Param
number_param = record { name = "temp"; ctype = "const Temporal *"; canonical = "const Temporal *" }

abbrev math_function : String → String → List Param → Function
math_function name sql_name params = record {
  name = name;
  group = "meos_temporal_math";
  category = "transformation";
  sql_name = sql_name;
  params = params;
  returns = "Temporal *";
}

-- The second of them takes an operand, and the third has no SQL name.
abbrev catalog : List Function
catalog =
    math_function "tfloat_sin" "sin" (number_param ∷ [])
    ∷ math_function "temporal_round" "round"
        (number_param ∷ record { name = "maxdd"; ctype = "int"; canonical = "int" } ∷ [])
    ∷ math_function "tfloat_hidden" "" (number_param ∷ [])
    ∷ []

abbrev selected_two : List MathOperation
selected_two =
    record { sql_name = "round"; symbol = "temporal_round"; arg = "int"; arg_canonical = "int" }
    ∷ record { sql_name = "sin"; symbol = "tfloat_sin"; arg = ""; arg_canonical = "" }
    ∷ []

math_operations-IsSorted_example : IsSorted op_le selected_two × IsSelection catalog selected_two
unfolding math_operations mobility_api.Base.Text.contains mobility_api.Base.Text.cut
math_operations-IsSorted_example = math_operations-IsSorted catalog selected_two refl

-- A run over a catalog of one type, whose decoder takes any text.
abbrev whole_types : List (String × TypeEntry)
whole_types =
    (
      "tint",
      record {
        base = "int";
        box = "tbox";
        mfjson = "MovingInteger";
        spatial = false;
        number = true;
        linear = false;
      },
    )
    ∷ []

abbrev one_run : Run
unfolding generate
one_run =
    generate ok (λ file src. none) (λ path. ok "{}")
      (λ raw. ok record { temporal_types = whole_types; functions = catalog }) "idl.json"
      "catalog.go" "dispatch.go"

generate-IsWritten_example :
    IsWritten ok
      (λ file src. none)
      (λ path. ok "{}")
      (λ raw. ok record { temporal_types = whole_types; functions = catalog })
      "idl.json"
      "catalog.go"
      "dispatch.go"
      one_run.0
unfolding generate math_operations mobility_api.Base.Text.contains mobility_api.Base.Text.cut
generate-IsWritten_example =
    generate-IsWritten ok (λ file src. none) (λ path. ok "{}")
      (λ raw. ok record { temporal_types = whole_types; functions = catalog }) "idl.json"
      "catalog.go" "dispatch.go" refl
