-- ===== src/Samples/First.antt =====
-- samples.go: what required and firstMember have seen when the walk goes on.
use mobility_api.Base.{
  ◌≡◌, refl, ap, ◌∙◌, String, Option, none, some, eqb, eqb_iff, Bool-cases, inl, inr,
}
use mobility_api.Base.Float.{Float}
use mobility_api.Base.Json.{Json, null, bool, num, str, arr, obj, Fields, Items, nil, cons, member}
use mobility_api.Http.{Result, ok, err, ok_injective, err_ne_ok}
use mobility_api.Samples.{Read, text_of, field_of, first_of, first_member}
use mobility_api.Samples.Emit.{member_at, required}

module _ (format_float : Float → String) (sprint : Json → String) where
  -- The name that a value gives: a text is one, a number is printed as a float64, and any other value but
  -- null as the language prints it.
  unfoldable pub Names : Json → String → Type 0
  Names null name = ⊥
  Names (str s) name = s ≡ name
  Names (num v) name = format_float v ≡ name
  Names (bool b) name = sprint (bool b) ≡ name
  Names (arr xs) name = sprint (arr xs) ≡ name
  Names (obj fs) name = sprint (obj fs) ≡ name

  -- The answer has the status 200 and is an object, whose list begins with an object of that name.
  unfoldable pub IsFirst : (String → Read) → String → String → String → String → Type 0
  unfolding Names
  IsFirst read path array field name =
      ((read path).code ≡ 200)
      × (fs gs : Fields) × (ms : Items) × ((read path).document ≡ some (obj fs))
      × (member array (obj fs) ≡ arr (cons (obj gs) ms))
      × Names (member field (obj gs)) name

  module _ (reason : Option Json → String) where
    text_of-Names :
        (array field : String) (v : Json) (name : String)
        → text_of format_float sprint reason array field v ≡ ok name
        → Names v name
    unfolding text_of Names
    text_of-Names array field null name h = err_ne_ok h
    text_of-Names array field (str s) name h = ok_injective h
    text_of-Names array field (num v) name h = ok_injective h
    text_of-Names array field (bool b) name h = ok_injective h
    text_of-Names array field (arr xs) name h = ok_injective h
    text_of-Names array field (obj fs) name h = ok_injective h

    -- The first member of the value of a list.
    Begins : String → Json → String → Type 0
    Begins field v name =
        (gs : Fields) × (ms : Items) × (v ≡ arr (cons (obj gs) ms))
        × Names (member field (obj gs)) name

    first_of-Begins :
        (array field : String) (v : Json) (name : String)
        → first_of format_float sprint reason array field v ≡ ok name
        → Begins field v name
    unfolding first_of field_of Begins
    first_of-Begins array field null name h = absurd (err_ne_ok h)
    first_of-Begins array field (str s) name h = absurd (err_ne_ok h)
    first_of-Begins array field (num v) name h = absurd (err_ne_ok h)
    first_of-Begins array field (bool b) name h = absurd (err_ne_ok h)
    first_of-Begins array field (obj fs) name h = absurd (err_ne_ok h)
    first_of-Begins array field (arr nil) name h = absurd (err_ne_ok h)
    first_of-Begins array field (arr (cons null ms)) name h = absurd (err_ne_ok h)
    first_of-Begins array field (arr (cons (str s) ms)) name h = absurd (err_ne_ok h)
    first_of-Begins array field (arr (cons (num v) ms)) name h = absurd (err_ne_ok h)
    first_of-Begins array field (arr (cons (bool b) ms)) name h = absurd (err_ne_ok h)
    first_of-Begins array field (arr (cons (arr xs) ms)) name h = absurd (err_ne_ok h)
    first_of-Begins array field (arr (cons (obj gs) ms)) name h =
        (gs, ms, refl, text_of-Names array field (member field (obj gs)) name h)

    first_member-Begins :
        (d : Option Json) (array field name : String)
        → first_member format_float sprint reason d array field ≡ ok name
        → (fs : Fields) × (d ≡ some (obj fs)) × Begins field (member array (obj fs)) name
    unfolding first_member first_of
    first_member-Begins none array field name h = absurd (err_ne_ok h)
    first_member-Begins (some null) array field name h = absurd (err_ne_ok h)
    first_member-Begins (some (str s)) array field name h = absurd (err_ne_ok h)
    first_member-Begins (some (num v)) array field name h = absurd (err_ne_ok h)
    first_member-Begins (some (bool b)) array field name h = absurd (err_ne_ok h)
    first_member-Begins (some (arr xs)) array field name h = absurd (err_ne_ok h)
    first_member-Begins (some (obj fs)) array field name h =
        (fs, refl, first_of-Begins array field (member array (obj fs)) name h)

    required_answered :
        (read : String → Read) (path : String) (r : Read)
        → required format_float sprint reason read path ≡ ok r
        → ((read path).code ≡ 200) × (read path ≡ r)
    unfolding required
    required_answered read path r h = elim (Bool-cases (eqb (read path).code 200)) [
      | inl answered ↦ ((eqb_iff (read path).code 200).0 answered, ok_injective (rw answered at h))
      | inr refused ↦ absurd (err_ne_ok (rw refused at h))
    ]

    -- What the walk sees of an answer that it goes on from.
    seen :
        (read : String → Read) (path array field name : String) (o : Result Read)
        → required format_float sprint reason read path ≡ o
        → elim o [
          | err e ↦ err e
          | ok r ↦ first_member format_float sprint reason r.document array field
        ]
          ≡ ok name
        → IsFirst read path array field name
    unfolding IsFirst Begins
    seen read path array field name (err e) k h = absurd (err_ne_ok h)
    seen read path array field name (ok r) k h =
        let (code, same) = required_answered read path r k in
        let (fs, d, (gs, ms, list, named)) = first_member-Begins r.document array field name h in
        (code, fs, gs, ms, ap (λ z. z.document) same ∙ d, list, named)

    pub member_at-IsFirst :
        (read : String → Read) (path array field name : String)
        → member_at format_float sprint reason read path array field ≡ ok name
        → IsFirst read path array field name
    unfolding member_at
    member_at-IsFirst read path array field name h = seen read path array field name _ refl h
