-- ===== src/Document/Total.antt =====
-- The rendering of a temporal property ends on every body, and names an interpolation that MobilityDB
-- carries.
use mobility_api.Base.{
  All, All-lookup, ℕ, zero, suc, ◌<◌, String, ◌≡◌, refl, inl, inr, Bool-cases, List, [], ◌∷◌,
  Option, none, some, arith, false, ◌||◌,
}
use mobility_api.Base.Text.{is_nil}
use mobility_api.Base.Json.{
  Json, str, member, as_arr, str_of, is_null, depth, depth-member-le, depth-lt_of_as_arr,
}
use mobility_api.Http.{Result, ok}
use mobility_api.Filters.Interval.{◌>>=◌, on_ok_inversion}
use mobility_api.PropType.{TType, tprop_type, tprop_tokens}
use mobility_api.Interp.Answers.{IsServed, mdb_interp_classified}
use mobility_api.Document.{
  by_sequence, mfjson_within, tprop_mfjson, flat, flat_document, map_interp, segments,
  sequence_document,
}

-- A document of the type asked for, whose interpolation MobilityDB carries.
abbrev pub IsStorable : String → Json → Type 0
IsStorable mf_type doc =
    (member "type" doc ≡ str mf_type)
    × ((i : String) × (member "interpolation" doc ≡ str i) × IsServed i)

module _ (mf_type default : String) where
  -- The renderings agree on whatever the only member of a valueSequence may be.
  by_sequence_agree :
      (again again' : Json → Result Json) (body v : Json)
      → ((x : Json) → depth x < depth v → again x ≡ again' x)
      → (o : Option (List Json)) → as_arr v ≡ o
      → by_sequence again mf_type default body o ≡ by_sequence again' mf_type default body o
  unfolding by_sequence
  by_sequence_agree again again' body v same none e = refl
  by_sequence_agree again again' body v same (some []) e = refl
  by_sequence_agree again again' body v same (some (x ∷ [])) e =
      same x (depth-lt_of_as_arr v x [] e)
  by_sequence_agree again again' body v same (some (a ∷ (b ∷ cs))) e = refl

  -- More fuel than the depth of the body changes nothing.
  mfjson_within_enough :
      (f g : ℕ) (body : Json)
      → depth body < f
      → depth body < g
      → mfjson_within f mf_type default body ≡ mfjson_within g mf_type default body
  unfolding mfjson_within
  mfjson_within_enough zero g body h k = elim h [ ]
  mfjson_within_enough (suc f) zero body h k = elim k [ ]
  mfjson_within_enough (suc f) (suc g) body h k =
      let below = depth-member-le "valueSequence" body in
      by_sequence_agree _ _ body (member "valueSequence" body)
        (λ x lt. mfjson_within_enough f g x (omega arith) (omega arith)) _ refl

  -- The rendering satisfies the source's recursive equation: a valueSequence of one member is
  -- rendered as that member is, whatever its depth.
  pub tprop_mfjson_single :
      (body x : Json)
      → as_arr (member "valueSequence" body) ≡ some (x ∷ [])
      → tprop_mfjson mf_type default body ≡ tprop_mfjson mf_type default x
  unfolding tprop_mfjson
  tprop_mfjson_single body x e =
      let below = depth-member-le "valueSequence" body in
      let deeper = depth-lt_of_as_arr (member "valueSequence" body) x [] e in
      rw e (mfjson_within_enough (depth body) (suc (depth x)) x (omega arith) (omega arith))

  map_interp-IsServed :
      (v : Json) (i : String) → IsServed default → map_interp default v ≡ ok i → IsServed i
  unfolding map_interp
  map_interp-IsServed v i d h = elim (Bool-cases (is_nil (str_of v))) [
    | inl e ↦ ground (arith, e)
    | inr e ↦ ground (arith, e, mdb_interp_classified (str_of v))
  ]

  rendered :
      (r : Result String) (make : String → Json) (doc : Json)
      → ((i : String) → r ≡ ok i → IsServed i)
      → ((i : String)
          → (member "type" (make i) ≡ str mf_type) × (member "interpolation" (make i) ≡ str i))
      → (r >>= λ i. ok (make i)) ≡ ok doc
      → IsStorable mf_type doc
  rendered r make doc served shown h =
      let (i, e, k) = on_ok_inversion r _ h in
      let same : make i ≡ doc = ground arith in
      rw (← same) ((shown i).0, (i, (shown i).1, served i e))

  flat-IsStorable :
      (body doc : Json)
      → IsServed default
      → flat mf_type default body ≡ ok doc
      → IsStorable mf_type doc
  unfolding flat flat_document
  flat-IsStorable body doc d h =
      elim (Bool-cases (is_null (member "datetimes" body) || is_null (member "values" body))) [
        | inl e ↦ absurd (cc (rw e at h))
        | inr e ↦
            rendered _ (flat_document mf_type body) doc
              (λ i. map_interp-IsServed (member "interpolation" body) i d) (λ i. (refl, refl))
              (rw e at h)
      ]

  -- Once the interpolation is known, the segments keep it.
  segments_keep :
      (interp : String) (ms : List Json) (r : String × List Json)
      → is_nil interp ≡ false
      → segments default interp ms ≡ ok r
      → r.0 ≡ interp
  unfolding segments
  segments_keep interp [] r n h = ground arith
  segments_keep interp (m ∷ ms) r n h =
      let (rest, e, k) = on_ok_inversion (segments default interp ms) _ (rw n at h) in
      ground (arith, segments_keep interp ms rest n e)

  not_nil_of_IsServed : (i : String) → IsServed i → is_nil i ≡ false
  not_nil_of_IsServed i (inl e) = rw e
  not_nil_of_IsServed i (inr (inl e)) = rw e
  not_nil_of_IsServed i (inr (inr e)) = rw e

  segments-IsServed :
      (m : Json) (ms : List Json) (r : String × List Json)
      → IsServed default
      → segments default "" (m ∷ ms) ≡ ok r
      → IsServed r.0
  unfolding segments
  segments-IsServed m ms r d h =
      let (i, e, k) = on_ok_inversion (map_interp default (member "interpolation" m)) _ h in
      let (rest, e', k') = on_ok_inversion (segments default i ms) _ k in
      let served = map_interp-IsServed _ i d e in
      let kept = segments_keep i ms rest (not_nil_of_IsServed i served) e' in
      let same : r.0 ≡ i = ground arith in rw same served

  sequence-IsStorable :
      (a b : Json) (cs : List Json) (doc : Json)
      → IsServed default
      → (segments default "" (a ∷ b ∷ cs) >>= λ r. ok (sequence_document mf_type r)) ≡ ok doc
      → IsStorable mf_type doc
  unfolding sequence_document
  sequence-IsStorable a b cs doc d h =
      let (r, e, k) = on_ok_inversion (segments default "" (a ∷ b ∷ cs)) _ h in
      let same : sequence_document mf_type r ≡ doc = ground arith in
      rw (← same) (refl, (r.0, refl, segments-IsServed a (b ∷ cs) r d e))

  by_sequence-IsStorable :
      (again : Json → Result Json) (body : Json) (o : Option (List Json)) (doc : Json)
      → IsServed default
      → ((x : Json) → again x ≡ ok doc → IsStorable mf_type doc)
      → by_sequence again mf_type default body o ≡ ok doc
      → IsStorable mf_type doc
  unfolding by_sequence
  by_sequence-IsStorable again body none doc d ih k = flat-IsStorable body doc d k
  by_sequence-IsStorable again body (some []) doc d ih k = flat-IsStorable body doc d k
  by_sequence-IsStorable again body (some (x ∷ [])) doc d ih k = ih x k
  by_sequence-IsStorable again body (some (a ∷ (b ∷ cs))) doc d ih k =
      sequence-IsStorable a b cs doc d k

  mfjson-IsStorable :
      (fuel : ℕ) (body doc : Json)
      → IsServed default
      → mfjson_within fuel mf_type default body ≡ ok doc
      → IsStorable mf_type doc
  unfolding mfjson_within
  mfjson-IsStorable zero body doc d h = absurd (cc)
  mfjson-IsStorable (suc fuel) body doc d h =
      by_sequence-IsStorable _ body _ doc d (λ x. mfjson-IsStorable fuel x doc d) h

  tprop_mfjson-IsStorable :
      (body doc : Json)
      → IsServed default
      → tprop_mfjson mf_type default body ≡ ok doc
      → IsStorable mf_type doc
  unfolding tprop_mfjson
  tprop_mfjson-IsStorable body doc d h = mfjson-IsStorable (suc (depth body)) body doc d h

tprop_tokens-IsServed : All (λ e. IsServed e.1.def_interp) tprop_tokens
unfolding tprop_tokens
tprop_tokens-IsServed = ground arith

-- Whatever token a request names its type by, a body that is rendered for that type becomes a
-- document of the type's MF-JSON token, under an interpolation that MobilityDB carries.
pub tprop_type-IsStorable :
    (t : String) (ty : TType) (body doc : Json)
    → tprop_type t ≡ some ty
    → tprop_mfjson ty.mf ty.def_interp body ≡ ok doc
    → IsStorable ty.mf doc
unfolding tprop_type
tprop_type-IsStorable t ty body doc h k =
    tprop_mfjson-IsStorable ty.mf ty.def_interp body doc
      (All-lookup (λ u. IsServed u.def_interp) _ tprop_tokens tprop_tokens-IsServed h) k
