-- ===== src/Routes/Links.antt =====
-- The links to the channel of a continuous query, and the route that serves them.
use Prim.Native.String.{◌++◌}
use text.Mathlib.TextLemmas.{nil-append, cons-append}
use mobility_api.Base.{
  ℕ, suc, String, ◌≡◌, refl, sym, ◌∙◌, Bool, true, false, List, [], ◌∷◌, Option, ◌==◌, ◌⊎◌, inl,
  inr, Bool-cases, if◌then◌else◌,
}
use mobility_api.Base.Text.{is_nil}
use mobility_api.Base.Int.{itoa, format_nat}
use mobility_api.Base.Decimal.{IsDecimal, format_nat-IsDecimal}
use mobility_api.Base.Json.{member, str_of}
use mobility_api.Stream.{QuerySpec}
use mobility_api.Stream.Registry.{Registry, register, base_path, cquery_link}
use mobility_api.Routes.{
  Endpoint, Values, answer_of, served, to_stream_query, dispatch_request, segments, best, routes,
}
use mobility_api.Routes.Paths.{
  property_channel, geometry_channel, is_plain, IsSegment, digits_plain, itoa-IsSegment, path_of,
  segments-path_of,
}

-- What the route of a channel reads from its path.
unfoldable pub channel_values : QuerySpec → String → Values
channel_values spec id =
    if spec.kind == "geometry"
    then ("cid", spec.cid) ∷ ("fid", itoa spec.fid) ∷ ("qid", id) ∷ []
    else ("cid", spec.cid) ∷ ("fid", itoa spec.fid) ∷ ("pname", spec.pname) ∷ ("qid", id) ∷ []

module _ (cid fid id : String) (allowed : Bool) where
  served_property :
      (pname : String)
      → is_nil cid ≡ false
      → is_nil fid ≡ false
      → is_nil pname ≡ false
      → is_nil id ≡ false
      → answer_of
          (best "GET"
            ("collections" ∷ cid ∷ "items" ∷ fid ∷ "tproperties" ∷ pname ∷ "queries" ∷ id ∷ "stream"
              ∷ [])
            routes)
          allowed
        ≡ served to_stream_query (("cid", cid) ∷ ("fid", fid) ∷ ("pname", pname) ∷ ("qid", id) ∷ [])
  unfolding best routes answer_of
  served_property pname h1 h2 h3 h4 = rw (h1, h2, h3, h4) refl

  served_geometry :
      is_nil cid ≡ false
      → is_nil fid ≡ false
      → is_nil id ≡ false
      → answer_of
          (best "GET"
            ("collections" ∷ cid ∷ "items" ∷ fid ∷ "tgsequence" ∷ "queries" ∷ id ∷ "stream" ∷ [])
            routes)
          allowed
        ≡ served to_stream_query (("cid", cid) ∷ ("fid", fid) ∷ ("qid", id) ∷ [])
  unfolding best routes answer_of
  served_geometry h1 h2 h3 = rw (h1, h2, h3) refl

id-IsSegment : (n : ℕ) → IsSegment ("q" ++ format_nat n)
unfolding IsSegment IsDecimal is_plain
id-IsSegment n =
    let (filled, digits, value) = format_nat-IsDecimal n in
    rw (cons-append "q" "" (format_nat n), nil-append (format_nat n))
      (refl, digits_plain (format_nat n) digits)

pub dispatch_request-segments :
    (path : String) (ss : List String) (a : Endpoint) (vs : Values)
    → segments path ≡ ss
    → ((allowed : Bool) → answer_of (best "GET" ss routes) allowed ≡ served a vs)
    → dispatch_request "GET" path ≡ served a vs
unfolding dispatch_request
dispatch_request-segments path ss a vs e h = rw (e) (h _)

module _ (spec : QuerySpec) (id : String) (cid : IsSegment spec.cid) (named : IsSegment id) where
  on_geometry :
      (spec.kind == "geometry") ≡ true
      → dispatch_request "GET" ((base_path spec ++ ("/" ++ id)) ++ "/stream")
        ≡ served to_stream_query (channel_values spec id)
  unfolding base_path channel_values IsSegment is_plain
  on_geometry h =
      let fid = itoa-IsSegment spec.fid in
      let ss =
        "collections"
        ∷ spec.cid
        ∷ "items"
        ∷ itoa spec.fid
        ∷ "tgsequence"
        ∷ "queries"
        ∷ id
        ∷ "stream"
        ∷ [] in
      rw (h, geometry_channel spec.cid (itoa spec.fid) id)
        (dispatch_request-segments (path_of ss) ss to_stream_query _
          (segments-path_of ss (
            (refl, refl),
            (
              cid,
              ((refl, refl), (fid, ((refl, refl), ((refl, refl), (named, ((refl, refl), tt)))))),
            ),
          ))
          (λ allowed. served_geometry spec.cid (itoa spec.fid) id allowed cid.0 fid.0 named.0))

  on_property :
      (spec.kind == "geometry") ≡ false
      → IsSegment spec.pname
      → dispatch_request "GET" ((base_path spec ++ ("/" ++ id)) ++ "/stream")
        ≡ served to_stream_query (channel_values spec id)
  unfolding base_path channel_values IsSegment is_plain
  on_property h pname =
      let fid = itoa-IsSegment spec.fid in
      let ss =
        "collections"
        ∷ spec.cid
        ∷ "items"
        ∷ itoa spec.fid
        ∷ "tproperties"
        ∷ spec.pname
        ∷ "queries"
        ∷ id
        ∷ "stream"
        ∷ [] in
      rw (h, property_channel spec.cid (itoa spec.fid) id spec.pname)
        (dispatch_request-segments (path_of ss) ss to_stream_query _
          (segments-path_of ss (
            (refl, refl),
            (
              cid,
              (
                (refl, refl),
                (fid, ((refl, refl), (pname, ((refl, refl), (named, ((refl, refl), tt)))))),
              ),
            ),
          ))
          (λ allowed.
            served_property spec.cid (itoa spec.fid) id allowed spec.pname cid.0 fid.0 pname.0
              named.0))

-- The channel that the link of a new query names is a path that the tier serves by streamQuery, with the
-- collection, the feature, the property and the identifier of the query, where the names of the
-- collection and of the property are letters, digits, underscores and dashes.
pub dispatch_request-cquery_link :
    (spec : QuerySpec) (handle : Option String) (channel : Option (String × ℕ)) (r : Registry)
    (origin engine : String)
    → IsSegment spec.cid
    → ((spec.kind == "geometry") ≡ true) ⊎ IsSegment spec.pname
    → let q = (register spec handle channel r).0 in
      dispatch_request "GET" (str_of (member "channel" (cquery_link origin engine q)))
      ≡ served to_stream_query (channel_values spec q.id)
unfolding cquery_link register
dispatch_request-cquery_link spec handle channel r origin engine cid pname =
    let named = id-IsSegment (suc r.next_id) in
    elim (Bool-cases (spec.kind == "geometry")) [
      | inl geometry ↦ on_geometry spec ("q" ++ format_nat (suc r.next_id)) cid named geometry
      | inr other ↦
          on_property spec ("q" ++ format_nat (suc r.next_id)) cid named other
            (elim pname [ inl geometry ↦ absurd (cc (sym geometry ∙ other)) | inr p ↦ p ])
    ]
