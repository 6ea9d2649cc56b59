-- ===== src/Stream/Aggregates/Serves.antt =====
-- The aggregations that a request may ask for, by aggByType, against those that the engine computes.
use mathlib.Core.Path.{subst}
use mobility_api.Base.{
  ℕ, String, ◌≡◌, refl, true, List, [], ◌∷◌, Option, some, any, All, lookup, length, ◌==◌,
  Bool-cases, inl, inr, eq_iff,
}
use mobility_api.Base.Json.{Json}
use mobility_api.Http.{ok}
use mobility_api.Stream.{Instant, is_agg, agg_by_type, aggs_of}
use mobility_api.Stream.Meos.{Meos}
use mobility_api.Stream.Aggregates.{
  synth_window_text, escape_text, bool_text, num_of, text_of, bool_of, num_aggregate,
  text_aggregate, bool_aggregate, window_aggregate,
}

any-All :
    (P : String → Type 0) (agg : String) (aggs : List String)
    → any (λ a. a == agg) aggs ≡ true
    → All P aggs
    → P agg
any-All P agg [] h all_p = absurd (cc)
any-All P agg (a ∷ aggs) h all_p = elim (Bool-cases (a == agg)) [
  | inl same ↦ subst P ((eq_iff a agg).0 same) all_p.0
  | inr other ↦ any-All P agg aggs (rw other at h) all_p.1
]

lookup-All :
    (P : String → String → Type 0) (ptype agg : String) (m : List (String × List String))
    → any (λ a. a == agg) (aggs_of (lookup ptype m)) ≡ true
    → All (λ e. All (P e.0) e.1) m
    → P ptype agg
unfolding aggs_of
lookup-All P ptype agg [] h all_p = absurd (cc)
lookup-All P ptype agg ((j, aggs) ∷ m) h all_p = elim (Bool-cases (j == ptype)) [
  | inl same ↦
      subst (λ k. P k agg) ((eq_iff j ptype).0 same) (any-All (P j) agg aggs (rw same at h) all_p.0)
  | inr other ↦ lookup-All P ptype agg m (rw other at h) all_p.1
]

-- MEOS reads a literal with the instants of the window.
abbrev IsReadBy : {T : Type 0} → Meos T → (String → Option T) → String → ℕ → Type 0
IsReadBy {T} m reader literal n = (t : T) × (reader literal ≡ some t) × (m.num_instants t ≡ n)

-- What MEOS documents of its readers, for the literals that the engine writes for a window.
pub record IsRead {T : Type 0} (m : Meos T) (win : List Instant) : Type 0 where
  pub numbers :
      IsReadBy m m.tfloat_in (synth_window_text win (λ i. m.format_float i.v)) (length win)
  pub texts : IsReadBy m m.ttext_in (synth_window_text win (λ i. escape_text i.s)) (length win)
  pub booleans : IsReadBy m m.tbool_in (synth_window_text win bool_text) (length win)

module _ {T : Type 0} (m : Meos T) (win : List Instant) (read : IsRead m win) where
  Answers : String → String → Type 0
  Answers ptype agg = (v : Json) × (window_aggregate m ptype agg win ≡ ok (v, length win))

  num_answers :
      (agg : String)
      → ((t : T) → (v : Json) × (num_of m agg t ≡ ok (v, m.num_instants t)))
      → (v : Json) × (num_aggregate m agg win ≡ ok (v, length win))
  unfolding num_aggregate
  num_answers agg f =
      let (t, taken, counted) = read.numbers in let (v, e) = f t in (v, rw (taken, e, counted) refl)

  text_answers :
      (agg : String)
      → ((t : T) → (v : Json) × (text_of m agg t ≡ ok (v, m.num_instants t)))
      → (v : Json) × (text_aggregate m agg win ≡ ok (v, length win))
  unfolding text_aggregate
  text_answers agg f =
      let (t, taken, counted) = read.texts in let (v, e) = f t in (v, rw (taken, e, counted) refl)

  bool_answers :
      (agg : String)
      → ((t : T) → (v : Json) × (bool_of m agg t ≡ ok (v, m.num_instants t)))
      → (v : Json) × (bool_aggregate m agg win ≡ ok (v, length win))
  unfolding bool_aggregate
  bool_answers agg f =
      let (t, taken, counted) = read.booleans in
      let (v, e) = f t in (v, rw (taken, e, counted) refl)

  numbers_answer :
      All
        (λ a. (v : Json) × (num_aggregate m a win ≡ ok (v, length win)))
        ("COUNT" ∷ "SUM" ∷ "AVG" ∷ "MIN" ∷ "MAX" ∷ [])
  unfolding num_of
  numbers_answer = (
    num_answers "COUNT" (λ t. (_, refl)),
    (
      num_answers "SUM" (λ t. (_, refl)),
      (
        num_answers "AVG" (λ t. (_, refl)),
        (num_answers "MIN" (λ t. (_, refl)), (num_answers "MAX" (λ t. (_, refl)), tt)),
      ),
    ),
  )

  texts_answer :
      All
        (λ a. (v : Json) × (text_aggregate m a win ≡ ok (v, length win)))
        ("COUNT" ∷ "COUNT_DISTINCT" ∷ [])
  unfolding text_of
  texts_answer =
      (text_answers "COUNT" (λ t. (_, refl)), (text_answers "COUNT_DISTINCT" (λ t. (_, refl)), tt))

  booleans_answer :
      All
        (λ a. (v : Json) × (bool_aggregate m a win ≡ ok (v, length win)))
        ("COUNT" ∷ "ANY" ∷ "ALL" ∷ "COUNT_TRUE" ∷ "COUNT_FALSE" ∷ [])
  unfolding bool_of
  booleans_answer = (
    bool_answers "COUNT" (λ t. (_, refl)),
    (
      bool_answers "ANY" (λ t. (_, refl)),
      (
        bool_answers "ALL" (λ t. (_, refl)),
        (
          bool_answers "COUNT_TRUE" (λ t. (_, refl)),
          (bool_answers "COUNT_FALSE" (λ t. (_, refl)), tt),
        ),
      ),
    ),
  )

  agg_by_type-Answers : All (λ e. All (Answers e.0) e.1) agg_by_type
  unfolding Answers window_aggregate agg_by_type
  agg_by_type-Answers = (numbers_answer, (numbers_answer, (texts_answer, (booleans_answer, tt))))

  -- Where MEOS reads the literals that the engine writes for a window, with as many instants, each
  -- aggregation that aggByType lists for the type of a property, and so each that a request may ask
  -- for, has a result over the window, with the number of its records.
  pub window_aggregate-is_agg :
      (ptype agg : String)
      → is_agg ptype agg ≡ true
      → (v : Json) × (window_aggregate m ptype agg win ≡ ok (v, length win))
  unfolding is_agg Answers
  window_aggregate-is_agg ptype agg h =
      lookup-All Answers ptype agg agg_by_type h agg_by_type-Answers
