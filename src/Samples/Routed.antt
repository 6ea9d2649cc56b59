-- ===== src/Samples/Routed.antt =====
-- samples.go against the routing table: the path of each sample, and the route that serves it.
use Prim.Native.String.{◌++◌}
use text.Mathlib.TextLemmas.{append_assoc, append-nil}
use mobility_api.Base.{String, ◌≡◌, refl, sym, ◌∙◌, ap, Bool, List, [], ◌∷◌, All, map}
use mobility_api.Samples.{samples}
use mobility_api.Routes.{
  Endpoint, Values, Answer, answer_of, served, dispatch_request, segments, best, routes, to_landing,
  to_api_doc, to_conformance, to_list_collections, to_get_collection, to_stream_items, to_get_item,
  to_tg_sequence, to_tg_sequence_query, to_list_tproperties, to_get_tproperty,
}
use mobility_api.Routes.Paths.{is_plain, IsSegment, path_of, segments-path_of, between_slashes}
use mobility_api.Routes.Links.{dispatch_request-segments}

-- The path of a collection, of a feature and below it, apart into their segments.
collection_path : (cid : String) → "/collections/" ++ cid ≡ path_of ("collections" ∷ cid ∷ [])
unfolding path_of
collection_path cid =
    between_slashes "collections" cid
    ∙ ap (λ z. "/" ++ ("collections" ++ ("/" ++ z))) (sym (append-nil cid))

below_collection :
    (cid s : String) (ss : List String)
    → ("/collections/" ++ cid) ++ path_of (s ∷ ss) ≡ path_of ("collections" ∷ cid ∷ s ∷ ss)
unfolding path_of
below_collection cid s ss =
    append_assoc "/collections/" cid (path_of (s ∷ ss))
    ∙ between_slashes "collections" (cid ++ path_of (s ∷ ss))

last_two : (s t : String) → (("/" ++ s) ++ "/") ++ t ≡ path_of (s ∷ t ∷ [])
unfolding path_of
last_two s t = between_slashes s t ∙ ap (λ z. "/" ++ (s ++ ("/" ++ z))) (sym (append-nil t))

feature_path :
    (cid fid : String)
    → ("/collections/" ++ cid) ++ ("/items/" ++ fid)
      ≡ path_of ("collections" ∷ cid ∷ "items" ∷ fid ∷ [])
feature_path cid fid =
    ap (λ z. ("/collections/" ++ cid) ++ z) (last_two "items" fid)
    ∙ below_collection cid "items" (fid ∷ [])

below_feature :
    (cid fid s : String) (ss : List String)
    → (("/collections/" ++ cid) ++ ("/items/" ++ fid)) ++ path_of (s ∷ ss)
      ≡ path_of ("collections" ∷ cid ∷ "items" ∷ fid ∷ s ∷ ss)
unfolding path_of
below_feature cid fid s ss =
    append_assoc ("/collections/" ++ cid) ("/items/" ++ fid) (path_of (s ∷ ss))
    ∙ ap (λ z. ("/collections/" ++ cid) ++ z)
        (append_assoc "/items/" fid (path_of (s ∷ ss))
          ∙ between_slashes "items" (fid ++ path_of (s ∷ ss)))
    ∙ below_collection cid "items" (fid ∷ s ∷ ss)

routed :
    (path : String) (ss : List String) (a : Endpoint) (vs : Values)
    → path ≡ path_of ss
    → All IsSegment ss
    → ((allowed : Bool) → answer_of (best "GET" ss routes) allowed ≡ served a vs)
    → dispatch_request "GET" path ≡ served a vs
routed path ss a vs e h f =
    dispatch_request-segments path ss a vs (ap segments e ∙ segments-path_of ss h) f

on_root : dispatch_request "GET" "/" ≡ served to_landing []
unfolding dispatch_request best routes answer_of segments
on_root = refl

on_api : dispatch_request "GET" "/api" ≡ served to_api_doc []
unfolding dispatch_request best routes answer_of segments
on_api = refl

on_conformance : dispatch_request "GET" "/conformance" ≡ served to_conformance []
unfolding dispatch_request best routes answer_of segments
on_conformance = refl

on_collections : dispatch_request "GET" "/collections" ≡ served to_list_collections []
unfolding dispatch_request best routes answer_of segments
on_collections = refl

-- A query on the first sequence.
abbrev pub on_first : String → String → String → Answer
on_first cid fid name =
    served to_tg_sequence_query (("cid", cid) ∷ ("fid", fid) ∷ ("tgid", "1") ∷ ("qtype", name) ∷ [])

module _ (cid fid pname : String) (c : IsSegment cid) (f : IsSegment fid)
    (p : IsSegment pname) where
  on_collection :
      dispatch_request "GET" ("/collections/" ++ cid) ≡ served to_get_collection (("cid", cid) ∷ [])
  unfolding best routes answer_of IsSegment is_plain
  on_collection =
      routed ("/collections/" ++ cid) ("collections" ∷ cid ∷ []) to_get_collection
        (("cid", cid) ∷ []) (collection_path cid) ((refl, refl), (c, tt)) (λ allowed. rw (c.0) refl)

  on_items :
      dispatch_request "GET" (("/collections/" ++ cid) ++ "/items")
      ≡ served to_stream_items (("cid", cid) ∷ [])
  unfolding best routes answer_of IsSegment is_plain path_of
  on_items =
      routed (("/collections/" ++ cid) ++ "/items") ("collections" ∷ cid ∷ "items" ∷ [])
        to_stream_items (("cid", cid) ∷ []) (below_collection cid "items" [])
        ((refl, refl), (c, ((refl, refl), tt))) (λ allowed. rw (c.0) refl)

  on_feature :
      dispatch_request "GET" (("/collections/" ++ cid) ++ ("/items/" ++ fid))
      ≡ served to_get_item (("cid", cid) ∷ ("fid", fid) ∷ [])
  unfolding best routes answer_of IsSegment is_plain
  on_feature =
      routed (("/collections/" ++ cid) ++ ("/items/" ++ fid))
        ("collections" ∷ cid ∷ "items" ∷ fid ∷ []) to_get_item (("cid", cid) ∷ ("fid", fid) ∷ [])
        (feature_path cid fid) ((refl, refl), (c, ((refl, refl), (f, tt))))
        (λ allowed. rw (c.0, f.0) refl)

  -- A path below the feature.
  on_part :
      (path : String) (ss : List String) (s : String) (a : Endpoint) (vs : Values)
      → path ≡ path_of (s ∷ ss)
      → All IsSegment (s ∷ ss)
      → ((allowed : Bool)
          → answer_of (best "GET" ("collections" ∷ cid ∷ "items" ∷ fid ∷ s ∷ ss) routes) allowed
            ≡ served a vs)
      → dispatch_request "GET" ((("/collections/" ++ cid) ++ ("/items/" ++ fid)) ++ path)
        ≡ served a vs
  unfolding IsSegment is_plain
  on_part path ss s a vs e h g =
      routed ((("/collections/" ++ cid) ++ ("/items/" ++ fid)) ++ path)
        ("collections" ∷ cid ∷ "items" ∷ fid ∷ s ∷ ss) a vs
        (ap (λ z. (("/collections/" ++ cid) ++ ("/items/" ++ fid)) ++ z) e
          ∙ below_feature cid fid s ss)
        ((refl, refl), (c, ((refl, refl), (f, h)))) g

  on_geometry :
      dispatch_request "GET" ((("/collections/" ++ cid) ++ ("/items/" ++ fid)) ++ "/tgsequence")
      ≡ served to_tg_sequence (("cid", cid) ∷ ("fid", fid) ∷ [])
  unfolding best routes answer_of IsSegment is_plain path_of
  on_geometry =
      on_part "/tgsequence" [] "tgsequence" to_tg_sequence (("cid", cid) ∷ ("fid", fid) ∷ []) refl
        ((refl, refl), tt) (λ allowed. rw (c.0, f.0) refl)

  on_query :
      (name : String)
      → IsSegment name
      → dispatch_request "GET"
          (((("/collections/" ++ cid) ++ ("/items/" ++ fid)) ++ "/tgsequence/1") ++ ("/" ++ name))
        ≡ served to_tg_sequence_query
            (("cid", cid) ∷ ("fid", fid) ∷ ("tgid", "1") ∷ ("qtype", name) ∷ [])
  unfolding best routes answer_of IsSegment is_plain path_of
  on_query name h =
      let feature = ("/collections/" ++ cid) ++ ("/items/" ++ fid) in
      ap (λ z. dispatch_request "GET" z) (append_assoc feature "/tgsequence/1" ("/" ++ name))
      ∙ on_part ("/tgsequence/1" ++ ("/" ++ name)) ("1" ∷ name ∷ []) "tgsequence"
          to_tg_sequence_query (("cid", cid) ∷ ("fid", fid) ∷ ("tgid", "1") ∷ ("qtype", name) ∷ [])
          (append_assoc "/tgsequence/" "1" ("/" ++ name)
            ∙ between_slashes "tgsequence" ("1" ++ ("/" ++ name))
            ∙ ap (λ z. "/" ++ ("tgsequence" ++ ("/" ++ ("1" ++ ("/" ++ z)))))
                (sym (append-nil name)))
          ((refl, refl), ((refl, refl), (h, tt))) (λ allowed. rw (c.0, f.0, h.0) refl)

  on_properties :
      dispatch_request "GET" ((("/collections/" ++ cid) ++ ("/items/" ++ fid)) ++ "/tproperties")
      ≡ served to_list_tproperties (("cid", cid) ∷ ("fid", fid) ∷ [])
  unfolding best routes answer_of IsSegment is_plain path_of
  on_properties =
      on_part "/tproperties" [] "tproperties" to_list_tproperties (("cid", cid) ∷ ("fid", fid) ∷ [])
        refl ((refl, refl), tt) (λ allowed. rw (c.0, f.0) refl)

  on_property :
      dispatch_request "GET"
        ((("/collections/" ++ cid) ++ ("/items/" ++ fid)) ++ ("/tproperties/" ++ pname))
      ≡ served to_get_tproperty (("cid", cid) ∷ ("fid", fid) ∷ ("pname", pname) ∷ [])
  unfolding best routes answer_of IsSegment is_plain
  on_property =
      on_part ("/tproperties/" ++ pname) (pname ∷ []) "tproperties" to_get_tproperty
        (("cid", cid) ∷ ("fid", fid) ∷ ("pname", pname) ∷ []) (last_two "tproperties" pname)
        ((refl, refl), (p, tt)) (λ allowed. rw (c.0, f.0, p.0) refl)

  -- For a collection, a feature and a temporal property whose names are written as they are in a path,
  -- each of the thirteen samples asks for a path that the routing table serves: the landing page, the API
  -- document, the conformance classes, the collections, the collection, its features, the feature, its
  -- geometry with the three queries on its first sequence, its properties and the property, with these
  -- names as what the route reads from the path.
  pub samples-routed :
      map (λ sample. dispatch_request "GET" sample.path) (samples cid fid pname)
      ≡ served to_landing []
        ∷ served to_api_doc []
        ∷ served to_conformance []
        ∷ served to_list_collections []
        ∷ served to_get_collection (("cid", cid) ∷ [])
        ∷ served to_stream_items (("cid", cid) ∷ [])
        ∷ served to_get_item (("cid", cid) ∷ ("fid", fid) ∷ [])
        ∷ served to_tg_sequence (("cid", cid) ∷ ("fid", fid) ∷ [])
        ∷ on_first cid fid "distance"
        ∷ on_first cid fid "velocity"
        ∷ on_first cid fid "acceleration"
        ∷ served to_list_tproperties (("cid", cid) ∷ ("fid", fid) ∷ [])
        ∷ served to_get_tproperty (("cid", cid) ∷ ("fid", fid) ∷ ("pname", pname) ∷ [])
        ∷ []
  unfolding samples IsSegment is_plain
  samples-routed =
      rw
        (
          on_root,
          on_api,
          on_conformance,
          on_collections,
          on_collection,
          on_items,
          on_feature,
          on_geometry,
          on_query "distance" (refl, refl),
          on_query "velocity" (refl, refl),
          on_query "acceleration" (refl, refl),
          on_properties,
          on_property,
        )
        refl
