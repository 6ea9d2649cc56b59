-- ===== src/Codegen/Written.antt =====
-- tools/codegen/main.go: what a run of the generator has written when it ends without an error.
use mathlib.Core.List
use mobility_api.Base.{
  ◌≡◌, refl, sym, ap, ◌∙◌, String, false, List, [], ◌∷◌, Option, none, some, is_empty, Option-cases,
  if◌then◌else◌, Bool-cases, inl, inr,
}
use mobility_api.Http.{Error, Result, ok, err, Result-cases}
use mobility_api.Codegen.{MathOperation, math_operations}
use mobility_api.Codegen.Templates.{TypeEntry, render, render_dispatch}
use mobility_api.Codegen.Generate.{
  CatalogFile, Run, about, no_types, generate, with_operations, then_write,
}

module _ (gofmt : String → Result String) (write : String → String → Option Error) where
  -- A step that ended without an error had its text laid out and written, and went on.
  then_write-ended :
      (file : String) (text : Result String) (go_on : List (String × String) → Run)
      → (files : List (String × String)) → (then_write gofmt write file text go_on files).1 ≡ none
      → (src : String) × (text ≡ ok src)
        × (write file src ≡ none)
        × (then_write gofmt write file text go_on files
            ≡ go_on (List.◌++◌ files ((file, src) ∷ [])))
  unfolding then_write
  then_write-ended file (err e) go_on files h = absurd (cc)
  then_write-ended file (ok src) go_on files h = elim (Option-cases (write file src)) [
    | inl wrote ↦ (src, refl, wrote, rw (wrote, then_write) refl)
    | inr (e, refused) ↦ let k : some e ≡ none = rw (refused, then_write) at h in absurd (cc)
  ]

  with_operations-ended :
      (path out out_meos : String) (types : List (String × TypeEntry))
      (r : Result (List MathOperation))
      → (with_operations gofmt write path out out_meos types r).1 ≡ none
      → (ops : List MathOperation) × (r ≡ ok ops)
        × (is_empty ops ≡ false)
        × (index : String) × (gofmt (render types ops) ≡ ok index)
        × (dispatch : String) × (gofmt (render_dispatch ops).0 ≡ ok dispatch)
        × ((with_operations gofmt write path out out_meos types r).0
            ≡ (out, index) ∷ (out_meos, dispatch) ∷ [])
  unfolding with_operations
  with_operations-ended path out out_meos types (err e) h = absurd (cc)
  with_operations-ended path out out_meos types (ok []) h = absurd (cc)
  with_operations-ended path out out_meos types (ok (op ∷ ops)) h =
      let (index, laid_out, wrote, went) =
        then_write-ended out (gofmt (render types (op ∷ ops)))
          (λ files.
            then_write gofmt write out_meos (gofmt (render_dispatch (op ∷ ops)).0)
              (λ files. (files, none)) files)
          [] h in
      let (dispatch, laid_out2, wrote2, went2) =
        then_write-ended out_meos (gofmt (render_dispatch (op ∷ ops)).0) (λ files. (files, none))
          ((out, index) ∷ []) (ap (λ r. r.1) (sym went) ∙ h) in
      (op ∷ ops, refl, refl, index, laid_out, dispatch, laid_out2, ap (λ r. r.0) (went ∙ went2))

  module _ (read : String → Result String) (decode : String → Result CatalogFile)
      (path out out_meos : String) where
    -- What the file read holds, the operations that it selects, and the two files.
    unfoldable pub IsWritten : List (String × String) → Type 0
    IsWritten files =
        (raw : String) × (read path ≡ ok raw)
        × (c : CatalogFile) × (decode raw ≡ ok c)
        × (is_empty c.temporal_types ≡ false)
        × (ops : List MathOperation) × (math_operations c.functions ≡ ok ops)
        × (is_empty ops ≡ false)
        × (index : String) × (gofmt (render c.temporal_types ops) ≡ ok index)
        × (dispatch : String) × (gofmt (render_dispatch ops).0 ≡ ok dispatch)
        × (files ≡ (out, index) ∷ (out_meos, dispatch) ∷ [])

    -- The run on a catalog that was read and decoded.
    checked : CatalogFile → Run
    checked c =
        if is_empty c.temporal_types
        then ([], some (no_types path))
        else with_operations gofmt write path out out_meos c.temporal_types
            (math_operations c.functions)

    generate-checked :
        (c : CatalogFile) (raw : String)
        → read path ≡ ok raw
        → decode raw ≡ ok c
        → generate gofmt write read decode path out out_meos ≡ checked c
    unfolding generate checked
    generate-checked c raw was_read decoded = rw (was_read, decoded, generate) refl

    checked-ended :
        (c : CatalogFile)
        → (checked c).1 ≡ none
        → (is_empty c.temporal_types ≡ false)
          × (checked c
              ≡ with_operations gofmt write path out out_meos c.temporal_types
                  (math_operations c.functions))
    unfolding checked
    checked-ended c h = elim (Bool-cases (is_empty c.temporal_types)) [
      | inl none_stated ↦ let k : some (no_types path) ≡ none = rw none_stated at h in absurd (cc)
      | inr stated ↦ (stated, rw stated refl)
    ]

    -- A run of the generator that ends without an error has read and decoded its catalog, which states
    -- temporal types and selects at least one operation, and has written exactly two files: first the index,
    -- of the types and the operations, and then the dispatch, of the operations, each as it was rendered and
    -- laid out by the formatter.
    pub generate-IsWritten :
        (generate gofmt write read decode path out out_meos).1 ≡ none
        → IsWritten (generate gofmt write read decode path out out_meos).0
    unfolding generate IsWritten
    generate-IsWritten h = elim (Result-cases (read path)) [
      | inl (e, refused) ↦ let k : some e ≡ none = rw (refused, generate) at h in absurd (cc)
      | inr (raw, was_read) ↦ elim (Result-cases (decode raw)) [
        | inl (e, refused) ↦
            let k : some (about path e) ≡ none = rw (was_read, refused, generate) at h in
            absurd (cc)
        | inr (c, decoded) ↦
            let run = generate-checked c raw was_read decoded in
            let ended = ap (λ r. r.1) (sym run) ∙ h in
            let (stated, went) = checked-ended c ended in
            let (ops, selects, some_op, index, laid_out, dispatch, laid_out2, files) =
              with_operations-ended path out out_meos c.temporal_types (math_operations c.functions)
                (ap (λ r. r.1) (sym went) ∙ ended) in
            (
              raw,
              was_read,
              c,
              decoded,
              stated,
              ops,
              selects,
              some_op,
              index,
              laid_out,
              dispatch,
              laid_out2,
              ap (λ r. r.0) (run ∙ went) ∙ files,
            )
      ]
    ]
