-- ===== src/Tests/Walks.antt =====
-- The walk over the samples on a service of one collection, and the catalog of the operations.
use mobility_api.Base.{String, ◌≡◌, refl, [], ◌∷◌, none, some, map, ◌==◌, if◌then◌else◌, true}
use mobility_api.Base.Json.{Json, str, object, array}
use mobility_api.Http.{ok}
use mobility_api.Catalog.Index.{math_op_by_sql_name}
use mobility_api.Stream.Catalogue.{IsStated, lifted_ops-IsStated}
use mobility_api.Stream.{OpInfo, lifted_ops}
use mobility_api.Samples.{Read, samples}
use mobility_api.Samples.Emit.{emit_samples}
use mobility_api.Samples.First.{IsFirst}
use mobility_api.Samples.Complete.{
  features_path, properties_path, IsComplete, emit_samples-IsComplete,
}
use mobility_api.Samples.Routed.{on_first, samples-routed}
use mobility_api.Routes.{
  served, dispatch_request, to_landing, to_api_doc, to_conformance, to_list_collections,
  to_get_collection, to_stream_items, to_get_item, to_tg_sequence, to_list_tproperties,
  to_get_tproperty,
}

abbrev one_of : String → String → String → Json
one_of list_name field value =
    object ((list_name, array (object ((field, str value) ∷ []) ∷ [])) ∷ [])

abbrev answer_with : Json → Read
answer_with d = record { code = 200; body = "{}"; document = some d }

-- The acceleration is refused, and the other documents are empty.
abbrev service : String → Read
service path =
    if path == "/collections"
    then answer_with (one_of "collections" "id" "ships")
    else if path == "/collections/ships/items"
    then answer_with (one_of "features" "id" "1")
    else if path == "/collections/ships/items/1/tproperties"
    then answer_with (one_of "temporalProperties" "name" "speed")
    else if path == "/collections/ships/items/1/tgsequence/1/acceleration"
    then record { code = 501; body = "no acceleration"; document = none }
    else answer_with (object [])

emit_samples-IsComplete_example :
    (cid fid pname : String) × IsFirst
      (λ x. "1")
      (λ d. "")
      service
      "/collections"
      "collections"
      "id"
      cid
    × IsFirst (λ x. "1") (λ d. "") service (features_path cid) "features" "id" fid
    × IsFirst
        (λ x. "1")
        (λ d. "")
        service
        (properties_path cid fid)
        "temporalProperties"
        "name"
        pname
    × IsComplete service ok
        (λ name text. none)
        cid
        fid
        pname
        (emit_samples (λ x. "1") (λ d. "") (λ d. "") service ok none (λ name text. none)).0
unfolding emit_samples
emit_samples-IsComplete_example =
    emit_samples-IsComplete service ok (λ name text. none) (λ x. "1") (λ d. "") (λ d. "") none refl

samples-routed_example :
    map (λ sample. dispatch_request "GET" sample.path) (samples "ships" "1" "speed")
    ≡ served to_landing []
      ∷ served to_api_doc []
      ∷ served to_conformance []
      ∷ served to_list_collections []
      ∷ served to_get_collection (("cid", "ships") ∷ [])
      ∷ served to_stream_items (("cid", "ships") ∷ [])
      ∷ served to_get_item (("cid", "ships") ∷ ("fid", "1") ∷ [])
      ∷ served to_tg_sequence (("cid", "ships") ∷ ("fid", "1") ∷ [])
      ∷ on_first "ships" "1" "distance"
      ∷ on_first "ships" "1" "velocity"
      ∷ on_first "ships" "1" "acceleration"
      ∷ served to_list_tproperties (("cid", "ships") ∷ ("fid", "1") ∷ [])
      ∷ served to_get_tproperty (("cid", "ships") ∷ ("fid", "1") ∷ ("pname", "speed") ∷ [])
      ∷ []
unfolding mobility_api.Routes.Paths.IsSegment
samples-routed_example = samples-routed "ships" "1" "speed" (refl, refl) (refl, refl) (refl, refl)

abbrev adding : OpInfo
adding = record { sql_name = "tAdd"; needs_arg = true }

lifted_ops-IsStated_example : IsStated adding (math_op_by_sql_name "tAdd")
unfolding lifted_ops
lifted_ops-IsStated_example = lifted_ops-IsStated "add" adding refl
