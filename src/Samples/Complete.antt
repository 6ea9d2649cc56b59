-- ===== src/Samples/Complete.antt =====
-- samples.go: what a walk has written when it ends without an error.
use Prim.Native.String
use mathlib.Core.Path.{subst}
use mathlib.Core.List.{append_assoc, append-nil}
use mobility_api.Base.{
  ◌≡◌, refl, sym, ap, ◌∙◌, String, List, [], ◌∷◌, ◌++◌, Option, none, some, map, Option-cases, inl,
  inr,
}
use mobility_api.Base.Float.{Float}
use mobility_api.Base.Json.{Json}
use mobility_api.Http.{Error, Result, ok, err, ok_injective}
use mobility_api.Samples.{Read, Sample, samples}
use mobility_api.Samples.First.{IsFirst, member_at-IsFirst}
use mobility_api.Samples.Emit.{
  Emitted, found, features_at, properties_at, from_feature, from_collection, file_of, content_of,
  sample_index, written, write_samples, write_index, emit_in, emit_samples, member_at,
}

found-ended :
    (r : Result String) (walk : String → Emitted)
    → (found r walk).1 ≡ none
    → (name : String) × (r ≡ ok name) × (found r walk ≡ walk name)
unfolding found
found-ended (err e) walk h = absurd (cc)
found-ended (ok name) walk h = (name, refl, refl)

abbrev pub features_path : String → String
features_path cid = String.◌++◌ "/collections/" (String.◌++◌ cid "/items")

abbrev pub properties_path : String → String → String
properties_path cid fid =
    String.◌++◌ "/collections/"
      (String.◌++◌ cid (String.◌++◌ "/items/" (String.◌++◌ fid "/tproperties")))

module _ (read : String → Read) (indent : String → Result String)
    (write : String → String → Option Error) where
  answered : Sample → Sample × Read
  answered s = (s, read s.path)

  -- A file whose step ended without an error was written, and the rest ended so too.
  written-ended :
      (name : String) (content : Result String) (later : Emitted)
      → (written write name content later).1 ≡ none
      → (text : String) × (content ≡ ok text)
        × (later.1 ≡ none)
        × ((written write name content later).0 ≡ (name, text) ∷ later.0)
  unfolding written
  written-ended name (err e) later h = absurd (cc)
  written-ended name (ok text) later h = elim (Option-cases (write name text)) [
    | inl wrote ↦ (text, refl, rw (wrote, written) at h, rw (wrote, written) refl)
    | inr (e, refused) ↦ let k : some e ≡ none = rw (refused, written) at h in absurd (cc)
  ]

  document_of : Sample → String × Result String
  document_of s = (file_of s (read s.path), content_of indent s (read s.path))

  module _ (index : List (Sample × Read) → Emitted) where
    -- The documents of the samples are written in order, and then the index over all the answers.
    write_samples-ended :
        (ss : List Sample) (answers : List (Sample × Read))
        → (write_samples read indent write index ss answers).1 ≡ none
        → (docs : List (String × String)) × (map (λ file. (file.0, ok file.1)) docs
            ≡ map document_of ss)
          × ((index (answers ++ map answered ss)).1 ≡ none)
          × ((write_samples read indent write index ss answers).0
              ≡ docs ++ (index (answers ++ map answered ss)).0)
    unfolding write_samples document_of answered
    write_samples-ended [] answers h =
        let e = ap index (sym (append-nil answers)) in
        ([], refl, ap (λ r. r.1) (sym e) ∙ h, ap (λ r. r.0) e)
    write_samples-ended (s ∷ ss) answers h =
        let r = read s.path in
        let later = write_samples read indent write index ss (answers ++ ((s, r) ∷ [])) in
        let (text, content, rest, files) =
          written-ended (file_of s r) (content_of indent s r) later h in
        let (docs, told, ended, all) = write_samples-ended ss (answers ++ ((s, r) ∷ [])) rest in
        let e = append_assoc answers ((s, r) ∷ []) (map answered ss) in
        (
          (file_of s r, text) ∷ docs,
          ap (λ c. (file_of s r, c) ∷ map (λ file. (file.0, ok file.1)) docs) (sym content)
              ∙ ap (λ z. document_of s ∷ z) told,
          subst (λ z. (index z).1 ≡ none) e ended,
          files ∙ ap (λ z. (file_of s r, text) ∷ z) (all ∙ ap (λ z. docs ++ (index z).0) e),
        )

  -- A document for each sample, in order, and the index that names them all.
  unfoldable pub IsComplete : String → String → String → List (String × String) → Type 0
  unfolding document_of answered
  IsComplete cid fid pname files =
      (docs : List (String × String)) × (map (λ file. (file.0, ok file.1)) docs
        ≡ map document_of (samples cid fid pname))
      × (files
          ≡ docs
            ++ (("README.md", sample_index cid fid pname (map answered (samples cid fid pname)))
                ∷ []))

  emit_in-IsComplete :
      (cid fid pname : String) (made : Option Error)
      → (emit_in read indent write cid fid pname made).1 ≡ none
      → IsComplete cid fid pname (emit_in read indent write cid fid pname made).0
  unfolding emit_in IsComplete write_index
  emit_in-IsComplete cid fid pname (some e) h = absurd (cc)
  emit_in-IsComplete cid fid pname none h =
      let (docs, told, ended, files) =
        write_samples-ended (write_index read indent write cid fid pname) (samples cid fid pname) []
          h in
      let (text, content, rest, last) =
        written-ended "README.md"
          (ok (sample_index cid fid pname (map answered (samples cid fid pname)))) ([], none)
          ended in
      (
        docs,
        told,
        files
            ∙ ap (λ z. docs ++ z)
                (last ∙ ap (λ t. ("README.md", t) ∷ []) (sym (ok_injective content))),
      )

  module _ (format_float : Float → String) (sprint : Json → String) (reason : Option Json → String)
      (make_dir : Option Error) where
    from_feature-IsComplete :
        (cid fid : String)
        → (from_feature format_float sprint reason read indent make_dir write cid fid).1 ≡ none
        → (pname : String) × IsFirst format_float sprint read
            (properties_path cid fid)
            "temporalProperties"
            "name"
            pname
          × IsComplete cid fid pname
              (from_feature format_float sprint reason read indent make_dir write cid fid).0
    unfolding from_feature properties_at
    from_feature-IsComplete cid fid h =
        let (pname, e, went) =
          found-ended (properties_at format_float sprint reason read cid fid)
            (λ pname. emit_in read indent write cid fid pname make_dir) h in
        (
          pname,
          member_at-IsFirst format_float sprint reason read _ "temporalProperties" "name" pname e,
          subst (IsComplete cid fid pname) (ap (λ r. r.0) (sym went))
              (emit_in-IsComplete cid fid pname make_dir (ap (λ r. r.1) (sym went) ∙ h)),
        )

    -- A walk over the samples that ends without an error read the collections, the features of the first
    -- of them and the temporal properties of the first of those, each with status 200, and takes the names
    -- of the first members. It has written one file for each sample of their set, in order, with the answer
    -- of the routes to its path, laid out where it is JSON, and then an index over all of them, and no other
    -- file.
    pub emit_samples-IsComplete :
        (emit_samples format_float sprint reason read indent make_dir write).1 ≡ none
        → (cid fid pname : String) × IsFirst format_float sprint read "/collections" "collections"
            "id" cid
          × IsFirst format_float sprint read (features_path cid) "features" "id" fid
          × IsFirst format_float sprint read
              (properties_path cid fid)
              "temporalProperties"
              "name"
              pname
          × IsComplete cid fid pname
              (emit_samples format_float sprint reason read indent make_dir write).0
    unfolding emit_samples from_collection features_at
    emit_samples-IsComplete h =
        let (cid, e1, went1) =
          found-ended (member_at format_float sprint reason read "/collections" "collections" "id")
            (from_collection format_float sprint reason read indent make_dir write) h in
        let h1 = ap (λ r. r.1) (sym went1) ∙ h in
        let (fid, e2, went2) =
          found-ended (features_at format_float sprint reason read cid)
            (from_feature format_float sprint reason read indent make_dir write cid) h1 in
        let (pname, named, complete) =
          from_feature-IsComplete cid fid (ap (λ r. r.1) (sym went2) ∙ h1) in
        (
          cid,
          fid,
          pname,
          member_at-IsFirst format_float sprint reason read _ "collections" "id" cid e1,
          member_at-IsFirst format_float sprint reason read _ "features" "id" fid e2,
          named,
          subst (IsComplete cid fid pname) (ap (λ r. r.0) (sym (went1 ∙ went2))) complete,
        )
