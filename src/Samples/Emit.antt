-- ===== src/Samples/Emit.antt =====
-- samples.go: emitSamples and writeSampleIndex. The directory, the layout of JSON and the writing of a file
-- are parameters.
use Prim.Native.String.{◌++◌}
use mathlib.Core.List
use mobility_api.Base.{String, List, [], ◌∷◌, Option, none, some, eqb, is_some, if◌then◌else◌}
use mobility_api.Base.Int.{pos, itoa}
use mobility_api.Base.Text.{trim_space, unlines}
use mobility_api.Base.Float.{Float}
use mobility_api.Base.Json.{Json}
use mobility_api.Http.{Error, error_text, failed, Result, ok, err}
use mobility_api.Samples.{Read, Sample, samples, first_member}

-- A document that is not JSON is kept as a text.
unfoldable pub file_of : Sample → Read → String
file_of s r = s.file ++ (if is_some r.document then ".json" else ".txt")

-- A line of the index.
index_line : Sample → Read → String
unfolding file_of
index_line s r =
    "| [`"
    ++ (file_of s r
        ++ ("`]("
            ++ (file_of s r
                ++ (") | "
                    ++ (itoa (pos r.code)
                        ++ (" | `GET " ++ (s.path ++ ("` | " ++ (s.what ++ " |\n")))))))))

index_lines : List (Sample × Read) → String
unfolding index_line
index_lines [] = ""
index_lines ((s, r) ∷ rest) = index_line s r ++ index_lines rest

abbrev index_head : List String
index_head =
    "# Sample documents" ∷ ""
    ∷ "Every file here is the body of one request through the service's own routing"
    ∷ "table, written by the service itself:" ∷ "" ∷ "    MFAPI_DSN=... mfapi -emit samples" ∷ ""
    ∷ "so a sample states what the code answers rather than what its author believed"
    ∷ "it answers. Regenerating rewrites the whole set." ∷ ""
    ∷ "These were read from the conformance fixture" ∷ []

abbrev index_tail : List String
index_tail =
    "another database the emitter names that database's own resources instead: it"
    ∷ "takes the first collection the service lists, that collection's first feature"
    ∷ "and that feature's first temporal property." ∷ ""
    ∷ "A status other than 200 is a sample too. The tier answers 501 for an"
    ∷ "acceleration under linear interpolation, because a velocity that is constant on"
    ∷ "every segment has no acceleration the standard's motion model can carry, and"
    ∷ "saying so is the honest answer rather than a zero." ∷ ""
    ∷ "⛔ The `timeStamp` of the TemporalProperties document is the moment the"
    ∷ "document was written, which the standard defines it to be, so that one line"
    ∷ "differs between two regenerations of an unchanged service." ∷ ""
    ∷ "| file | status | request | resource |" ∷ "|---|---|---|---|" ∷ []

-- writeSampleIndex
unfoldable pub sample_index : String → String → String → List (Sample × Read) → String
unfolding index_lines unlines
sample_index cid fid pname answers =
    unlines index_head
    ++ ("(`tutorial/setup/load_conformance.sql`), whose collection is `"
        ++ (cid
            ++ ("`, whose\n"
                ++ ("first feature is `"
                    ++ (fid
                        ++ ("` and whose first temporal property is `"
                            ++ (pname
                                ++ ("`. Pointed at\n"
                                    ++ (unlines index_tail ++ index_lines answers)))))))))

-- The files that a walk wrote, in order, and the error that it ended with.
abbrev pub Emitted : Type 0
Emitted = List (String × String) × Option Error

-- A name that the walk needs, or the error that ends it.
unfoldable pub found : Result String → (String → Emitted) → Emitted
found (err e) walk = ([], some e)
found (ok name) walk = walk name

-- What is written of an answer.
module _ (indent : String → Result String) where
  -- A document is laid out and ends in a line break; another answer is kept as it is.
  unfoldable pub content_of : Sample → Read → Result String
  content_of s r =
      if is_some r.document
      then elim (indent r.body) [
        | err e ↦ err (failed ("indenting " ++ (s.path ++ (": " ++ error_text e))))
        | ok laid_out ↦ ok (laid_out ++ "\n")
      ]
      else ok r.body

-- A file of a walk, and what is written after it.
module _ (write : String → String → Option Error) where
  unfoldable pub written : String → Result String → Emitted → Emitted
  written name (err e) later = ([], some e)
  written name (ok text) later = elim (write name text) [
    | some e ↦ ([], some e)
    | none ↦ ((name, text) ∷ later.0, later.1)
  ]

module _ (read : String → Read) (indent : String → Result String)
    (write : String → String → Option Error) where
  -- The samples that are left, and the answers to those before.
  unfoldable pub write_samples :
      (List (Sample × Read) → Emitted) → List Sample → List (Sample × Read) → Emitted
  unfolding written content_of file_of
  write_samples index [] answers = index answers
  write_samples index (s ∷ ss) answers =
      let r = read s.path in
      written write (file_of s r) (content_of indent s r)
        (write_samples index ss (List.◌++◌ answers ((s, r) ∷ [])))

  unfoldable pub write_index : String → String → String → List (Sample × Read) → Emitted
  unfolding written sample_index
  write_index cid fid pname answers =
      written write "README.md" (ok (sample_index cid fid pname answers)) ([], none)

  unfoldable pub emit_in : String → String → String → Option Error → Emitted
  unfolding write_samples write_index samples
  emit_in cid fid pname (some e) = ([], some e)
  emit_in cid fid pname none = write_samples (write_index cid fid pname) (samples cid fid pname) []

module _ (format_float : Float → String) (sprint : Json → String) (reason : Option Json → String)
    (read : String → Read) where
  unfoldable pub required : String → Result Read
  required path =
      let r = read path in
      if eqb r.code 200
      then ok r
      else err (
          failed (
            "GET "
            ++ (path
                ++ (" answered "
                    ++ (itoa (pos r.code)
                        ++ (", so the walk cannot continue: " ++ trim_space r.body))))))

  unfoldable pub member_at : String → String → String → Result String
  unfolding required first_member
  member_at path array field = elim (required path) [
    | err e ↦ err e
    | ok r ↦ first_member format_float sprint reason r.document array field
  ]

  unfoldable pub features_at : String → Result String
  unfolding member_at
  features_at cid = member_at ("/collections/" ++ (cid ++ "/items")) "features" "id"

  unfoldable pub properties_at : String → String → Result String
  unfolding member_at
  properties_at cid fid =
      member_at ("/collections/" ++ (cid ++ ("/items/" ++ (fid ++ "/tproperties"))))
        "temporalProperties" "name"

  module _ (indent : String → Result String) (make_dir : Option Error)
      (write : String → String → Option Error) where
    unfoldable pub from_feature : String → String → Emitted
    unfolding found properties_at emit_in
    from_feature cid fid =
        found (properties_at cid fid) (λ pname. emit_in read indent write cid fid pname make_dir)

    unfoldable pub from_collection : String → Emitted
    unfolding found features_at from_feature
    from_collection cid = found (features_at cid) (from_feature cid)

    unfoldable pub emit_samples : Emitted
    unfolding found member_at from_collection
    emit_samples = found (member_at "/collections" "collections" "id") from_collection
