-- ===== src/Codegen/Generate.antt =====
-- tools/codegen/main.go: main, from the catalog's text to the two files. os.ReadFile, json.Unmarshal,
-- format.Source and os.WriteFile are parameters; the flags are parsed before.
use Prim.Native.String.{◌++◌}
use mathlib.Core.List
use mobility_api.Base.{String, List, [], ◌∷◌, Option, none, some, is_empty, if◌then◌else◌}
use mobility_api.Http.{Error, failed, error_text, Result, ok, err}
use mobility_api.Codegen.{Function, MathOperation, math_operations}
use mobility_api.Codegen.Templates.{TypeEntry, render, render_dispatch}

-- catalog, as far as main reads it.
pub record CatalogFile : Type 0 where
  pub temporal_types : List (String × TypeEntry)
  pub functions : List Function

-- fmt.Errorf("%s: %w", path, err)
pub about : String → Error → Error
about path e = failed (path ++ (": " ++ error_text e))

pub no_types : String → Error
no_types path = failed (
    path
    ++ " carries no temporalTypes registry: it is older than the MEOS-API that states one, or it is not a MEOS-API catalog")

pub no_operations : String → Error
no_operations path = failed (
    path
    ++ " names no temporal math operation: the groups this reads, meos_temporal_math and meos_temporal_transf, are not where they were")

-- The files that a run wrote, in order, and the error that it ended with.
abbrev pub Run : Type 0
Run = List (String × String) × Option Error

-- What main does with a checked catalog: each file is rendered, laid out and written, and the first
-- failure ends the run.
module _ (gofmt : String → Result String) (write : String → String → Option Error) where
  unfoldable pub then_write :
      String → Result String → (List (String × String) → Run) → List (String × String) → Run
  then_write file (err e) go_on files = (files, some e)
  then_write file (ok src) go_on files = elim (write file src) [
    | some e ↦ (files, some e)
    | none ↦ go_on (List.◌++◌ files ((file, src) ∷ []))
  ]

  unfoldable pub with_operations :
      String → String → String → List (String × TypeEntry) → Result (List MathOperation) → Run
  unfolding then_write render render_dispatch
  with_operations path out out_meos types (err e) = ([], some (about path e))
  with_operations path out out_meos types (ok []) = ([], some (no_operations path))
  with_operations path out out_meos types (ok (op ∷ ops)) =
      then_write out (gofmt (render types (op ∷ ops)))
        (then_write out_meos (gofmt (render_dispatch (op ∷ ops)).0) (λ files. (files, none))) []

  unfoldable pub generate :
      (String → Result String) → (String → Result CatalogFile) → (path out out_meos : String) → Run
  unfolding with_operations math_operations
  generate read decode path out out_meos = elim (read path) [
    | err e ↦ ([], some e)
    | ok raw ↦ elim (decode raw) [
      | err e ↦ ([], some (about path e))
      | ok c ↦
          if is_empty c.temporal_types
          then ([], some (no_types path))
          else with_operations path out out_meos c.temporal_types (math_operations c.functions)
    ]
  ]
