-- ===== src/Base/Replace.antt =====
-- strings.ReplaceAll on a text that is put together from parts.
use Prim.Native.Char.{Char, code}
use Prim.Native.Nat.{zero}
use Prim.Native.String.{String, ◌++◌, count}
use text.Mathlib.Text.{starts_with}
use text.Mathlib.TextEquality.{starts_with_iff}
use text.Mathlib.TextPositions.{starts_with-append}
use text.Mathlib.TextLemmas.{nil-append, cons-append, length-cons, head-eq_of_cons-eq}
use mathlib.Core.Path.{◌≡◌, refl, sym, ap, ◌∙◌, subst}
use mathlib.Core.Logic.{inl, inr}
use mathlib.Core.Bool.{Bool, true, false, not}
use mobility_api.Base.Tests.{eqb, eqb_iff, Bool-cases}
use mobility_api.Base.Text.{all_codes, replace_from}
use mobility_api.Base.Split.{and_true}

-- No character of the text is the first one of what is replaced.
unfoldable pub is_free : Char → String → Bool
is_free d s = all_codes (λ c. not (eqb c (code d))) s

false_of_not : (b : Bool) → not b ≡ true → b ≡ false
false_of_not true h = sym h
false_of_not false h = refl

-- A text whose first character is another does not start with it.
starts_other :
    (d c : Char) (old s : String)
    → eqb (code c) (code d) ≡ false
    → starts_with (String.◌∷◌ c s) (String.◌∷◌ d old) ≡ false
starts_other d c old s h = elim (Bool-cases (starts_with (String.◌∷◌ c s) (String.◌∷◌ d old))) [
  | inl starts ↦
      let (u, e) = (starts_with_iff (String.◌∷◌ c s) (String.◌∷◌ d old)).0 starts in
      let same : d ≡ c = head-eq_of_cons-eq (sym (cons-append d old u) ∙ e) in
      let k : true ≡ false =
        sym ((eqb_iff (code c) (code c)).1 refl)
        ∙ subst (λ z. eqb (code c) (code z) ≡ false) same h in
      absurd (cc)
  | inr other ↦ other
]

module _ (d : Char) (old new : String) where
  -- Characters that are left of a match.
  skip :
      (s x : String)
      → replace_from (count s) (String.◌∷◌ d old) new (s ++ x)
        ≡ replace_from zero (String.◌∷◌ d old) new x
  unfolding replace_from
  skip String.[] x = rw (nil-append x) refl
  skip (String.◌∷◌ c s) x = rw (length-cons c s, cons-append c s x) (skip s x)

  pub replace-hit :
      (x : String)
      → replace_from zero (String.◌∷◌ d old) new (String.◌∷◌ d old ++ x)
        ≡ new ++ replace_from zero (String.◌∷◌ d old) new x
  unfolding replace_from
  replace-hit x =
      let starts =
        ap (λ z. starts_with z (String.◌∷◌ d old)) (sym (cons-append d old x))
        ∙ starts_with-append (String.◌∷◌ d old) x in
      rw (cons-append d old x)
        (rw (starts) (ap (λ z. new ++ z) (rw (length-cons d old) (skip old x))))

  pub replace-free :
      (s x : String)
      → is_free d s ≡ true
      → replace_from zero (String.◌∷◌ d old) new (s ++ x)
        ≡ s ++ replace_from zero (String.◌∷◌ d old) new x
  unfolding replace_from is_free
  replace-free String.[] x h =
      rw (nil-append x, nil-append (replace_from zero (String.◌∷◌ d old) new x)) refl
  replace-free (String.◌∷◌ c s) x h =
      let (other, rest) = and_true (not (eqb (code c) (code d))) (is_free d s) h in
      rw (cons-append c s x, cons-append c s (replace_from zero (String.◌∷◌ d old) new x))
        (rw (starts_other d c old (s ++ x) (false_of_not (eqb (code c) (code d)) other))
          (ap (λ z. String.◌∷◌ c z) (replace-free s x rest)))

  -- The first character of what is replaced, where the match fails.
  pub replace-other :
      (s x : String)
      → starts_with (String.◌∷◌ d s ++ x) (String.◌∷◌ d old) ≡ false
      → is_free d s ≡ true
      → replace_from zero (String.◌∷◌ d old) new (String.◌∷◌ d s ++ x)
        ≡ String.◌∷◌ d s ++ replace_from zero (String.◌∷◌ d old) new x
  unfolding replace_from
  replace-other s x h free =
      let miss = ap (λ z. starts_with z (String.◌∷◌ d old)) (sym (cons-append d s x)) ∙ h in
      rw (cons-append d s x, cons-append d s (replace_from zero (String.◌∷◌ d old) new x))
        (rw (miss) (ap (λ z. String.◌∷◌ d z) (replace-free s x free)))
