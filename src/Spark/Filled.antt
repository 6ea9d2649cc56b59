-- ===== src/Spark/Filled.antt =====
-- dialect_spark.go: inlineParams against the filling of all places of a statement at once.
use Prim.Native.String.{◌++◌}
use text.Mathlib.Text.{starts_with}
use mathlib.Core.Path.{subst}
use mobility_api.Base.{
  ℕ, zero, suc, ◌+◌, ◌-◌, ◌<◌, ◌≤◌, ltb, String, ◌≡◌, refl, sym, ap, ◌∙◌, true, false, List, [],
  ◌∷◌, All, length, arith, if◌then◌else◌, inl, inr, ◌⊎◌,
}
use mobility_api.Base.Text.{replace_all, replace_from}
use mobility_api.Base.Int.{format_nat}
use mobility_api.Base.Decimal.{IsDecimal, format_nat-IsDecimal}
use mobility_api.Base.Float.{Float}
use mobility_api.Base.Json.{Json}
use mobility_api.Base.Replace.{is_free, replace-hit, replace-free, replace-other}
use mobility_api.Backend.{Value}
use mobility_api.Spark.{inline_params, inline_from, spark_literal}
use mobility_api.Spark.Statement.{
  Piece, plain, place, render, IsStatement, ends_number-render, render-agree, digits_free,
  literal_at, IsFree,
}
use mobility_api.Spark.Places.{placeholder, placeholder-cons, ends_number, starts_smaller}

sub_self : (k : ℕ) → k - k ≡ 0
sub_self k = omega arith

below_or : (n k : ℕ) → (n < k) ⊎ ((n ≡ k) ⊎ (k < n))
below_or n k = ground arith

-- The k-th place is filled: `f` has placeholders up to it and free texts behind it, and `g` has `new` at it.
module _ (k bound : ℕ) (new : String) (f g : ℕ → String) where
  record Fills : Type 0 where
    below : (n : ℕ) → n < k → (f n ≡ placeholder n) × (g n ≡ placeholder n)
    here : (f k ≡ placeholder k) × (g k ≡ new)
    above : (n : ℕ) → k < n → n < bound → (is_free "$" (f n) ≡ true) × (g n ≡ f n)

  -- The digits of the k-th placeholder.
  number : String
  number = format_nat (suc k)

  -- One place in front of a text, and the text after it.
  replace-place :
      Fills
      → (n : ℕ) (x y : String) → n < bound
      → ends_number x ≡ true
      → replace_from zero (String.◌∷◌ "$" number) new x ≡ y
      → replace_from zero (String.◌∷◌ "$" number) new (f n ++ x) ≡ g n ++ y
  unfolding number IsDecimal
  replace-place h n x y lt ends e = elim (below_or n k) [
    | inl less ↦
        let (fn, gn) = h.below n less in
        let (filled, digits, value) = format_nat-IsDecimal (suc n) in
        let own = String.◌∷◌ "$" (format_nat (suc n)) in
        let miss =
          subst (λ z. starts_with (z ++ x) (placeholder k) ≡ false) (placeholder-cons n)
            (starts_smaller k n x less ends) in
        ap (λ z. replace_from zero (String.◌∷◌ "$" number) new (z ++ x)) (fn ∙ placeholder-cons n)
        ∙ replace-other "$" number new (format_nat (suc n)) x
            (subst (λ z. starts_with (own ++ x) z ≡ false) (placeholder-cons k) miss)
            (digits_free (format_nat (suc n)) digits)
        ∙ ap (λ z. own ++ z) e
        ∙ ap (λ z. z ++ y) (sym (gn ∙ placeholder-cons n))
    | inr (inl same) ↦
        ap (λ z. replace_from zero (String.◌∷◌ "$" number) new (f z ++ x)) same
        ∙ ap (λ z. replace_from zero (String.◌∷◌ "$" number) new (z ++ x))
            (h.here.0 ∙ placeholder-cons k)
        ∙ replace-hit "$" number new x
        ∙ ap (λ z. new ++ z) e
        ∙ ap (λ z. z ++ y) (sym (ap g same ∙ h.here.1))
    | inr (inr more) ↦
        let (free, gn) = h.above n more lt in
        replace-free "$" number new (f n) x free ∙ ap (λ z. f n ++ z) e ∙ ap (λ z. z ++ y) (sym gn)
  ]

  replace-pieces :
      Fills
      → (ps : List Piece) → IsStatement bound ps
      → replace_from zero (String.◌∷◌ "$" number) new (render f ps) ≡ render g ps
  unfolding IsStatement render replace_from
  replace-pieces h [] t = refl
  replace-pieces h (plain s ∷ ps) t =
      replace-free "$" number new s (render f ps) t.0 ∙ ap (λ z. s ++ z) (replace-pieces h ps t.1)
  replace-pieces h (place n ∷ ps) t =
      replace-place h n (render f ps) (render g ps) t.0 (ends_number-render f ps t.1)
        (replace-pieces h ps t.2)

  replace-render :
      Fills
      → (ps : List Piece) → IsStatement bound ps
      → replace_all (render f ps) (placeholder k) new ≡ render g ps
  unfolding replace_all number
  replace-render h ps t = rw (placeholder-cons k) (replace-pieces h ps t)

module _ (format_float : Float → String) (marshal : Json → String) where
  -- The places from the k-th one on are filled with the arguments.
  filled : ℕ → List Value → ℕ → String
  filled k vs n = if ltb n k then placeholder n else literal_at format_float marshal vs (n - k)

  literal_at-free :
      (vs : List Value) (n : ℕ)
      → All (IsFree format_float marshal) vs
      → n < length vs
      → is_free "$" (literal_at format_float marshal vs n) ≡ true
  unfolding literal_at IsFree
  literal_at-free [] n h lt = refl
  literal_at-free (v ∷ vs) zero h lt = h.0
  literal_at-free (v ∷ vs) (suc n) h lt = literal_at-free vs n h.1 (omega arith)

  filled-below : (k : ℕ) (vs : List Value) (n : ℕ) → n < k → filled k vs n ≡ placeholder n
  unfolding filled
  filled-below k vs n lt = let e : ltb n k ≡ true = ground arith in rw e refl

  filled-from :
      (k : ℕ) (vs : List Value) (n : ℕ)
      → k ≤ n
      → filled k vs n ≡ literal_at format_float marshal vs (n - k)
  unfolding filled
  filled-from k vs n le = let e : ltb n k ≡ false = ground arith in rw e refl

  fills :
      (k : ℕ) (v : Value) (vs : List Value)
      → All (IsFree format_float marshal) vs
      → Fills k
          (k + suc (length vs))
          (spark_literal format_float marshal v)
          (filled (suc k) vs)
          (filled k (v ∷ vs))
  unfolding filled literal_at
  fills k v vs free = record {
    below = λ n lt. (filled-below (suc k) vs n (omega arith), filled-below k (v ∷ vs) n lt);
    here = (
      filled-below (suc k) vs k (omega arith),
      filled-from k (v ∷ vs) k (omega arith)
          ∙ ap (literal_at format_float marshal (v ∷ vs)) (sub_self k),
    );
    above = λ n lt end.
        let e = filled-from (suc k) vs n (omega (arith, lt)) in
        let less : n - suc k < length vs = omega (arith, lt, end) in
        let one : n - k ≡ suc (n - suc k) = omega (arith, lt) in
        (
          subst (λ z. is_free "$" z ≡ true) (sym e) (literal_at-free vs (n - suc k) free less),
          filled-from k (v ∷ vs) n (omega (arith, lt))
              ∙ ap (literal_at format_float marshal (v ∷ vs)) one
              ∙ sym e,
        );
  }

  inline_from-filled :
      (ps : List Piece) (k : ℕ) (vs : List Value)
      → All (IsFree format_float marshal) vs
      → IsStatement (k + length vs) ps
      → inline_from format_float marshal k vs (render placeholder ps) ≡ render (filled k vs) ps
  unfolding inline_from placeholder
  inline_from-filled ps k [] free h =
      render-agree (k + 0) placeholder (filled k [])
        (λ n lt. sym (filled-below k [] n (omega (arith, lt)))) ps h
  inline_from-filled ps k (v ∷ vs) free h =
      let lit = spark_literal format_float marshal v in
      let bound : k + suc (length vs) ≡ suc k + length vs = omega arith in
      ap (λ z. replace_all z (placeholder k) lit)
        (inline_from-filled ps (suc k) vs free.1 (subst (λ b. IsStatement b ps) bound h))
      ∙ replace-render k (k + suc (length vs)) lit (filled (suc k) vs) (filled k (v ∷ vs))
          (fills k v vs free.1) ps h

  -- Where the arguments' literals hold no dollar sign, and a statement holds one only at the places of its
  -- arguments, each of them followed by its end or by a character that is no digit, the replacing of the
  -- placeholders one after the other, from the last to the first, fills each place with the literal of
  -- its own argument and changes nothing else.
  pub inline_params-render :
      (ps : List Piece) (vs : List Value)
      → All (IsFree format_float marshal) vs
      → IsStatement (length vs) ps
      → inline_params format_float marshal (render placeholder ps) vs
        ≡ render (literal_at format_float marshal vs) ps
  unfolding inline_params
  inline_params-render ps vs free h =
      let bound : length vs ≡ 0 + length vs = omega arith in
      inline_from-filled ps 0 vs free (subst (λ b. IsStatement b ps) bound h)
      ∙ render-agree (length vs) (filled 0 vs) (literal_at format_float marshal vs)
          (λ n lt.
            let none_before : n - 0 ≡ n = omega arith in
            filled-from 0 vs n (omega arith) ∙ ap (literal_at format_float marshal vs) none_before)
          ps h
