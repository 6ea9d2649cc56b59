-- ===== src/Spark/Places.antt =====
-- dialect_spark.go: the placeholders of a statement, and where one of them stands in a text.
use Prim.Native.Char.{code}
use Prim.Native.String.{◌++◌}
use text.Mathlib.Text.{starts_with}
use text.Mathlib.TextEquality.{starts_with_iff}
use text.Mathlib.TextLemmas.{nil-append, cons-append, head-eq_of_cons-eq, tail-eq_of_cons-eq}
use mathlib.Core.Path.{subst}
use mobility_api.Base.{
  ℕ, suc, ◌+◌, ◌*◌, ◌-◌, ◌≤◌, ◌<◌, String, ◌≡◌, refl, sym, ap, ◌∙◌, Bool, true, false, not, arith,
  Bool-cases, inl, inr,
}
use mobility_api.Base.Text.{is_digit, all_codes}
use mobility_api.Base.Split.{and_true}
use mobility_api.Base.Int.{format_nat, scan}
use mobility_api.Base.Decimal.{IsDecimal, format_nat-IsDecimal}

-- $n, for the n-th argument counted from 0.
unfoldable pub placeholder : ℕ → String
unfolding format_nat
placeholder n = "$" ++ format_nat (suc n)

-- The text does not go on with a digit.
unfoldable pub ends_number : String → Bool
ends_number String.[] = true
ends_number (String.◌∷◌ c s) = not (is_digit (code c))

pub placeholder-cons : (n : ℕ) → placeholder n ≡ String.◌∷◌ "$" (format_nat (suc n))
unfolding placeholder
placeholder-cons n =
    cons-append "$" "" (format_nat (suc n))
    ∙ ap (λ z. String.◌∷◌ "$" z) (nil-append (format_nat (suc n)))

scan-append : (acc : ℕ) (s t : String) → scan acc (s ++ t) ≡ scan (scan acc s) t
unfolding scan
scan-append acc String.[] t = rw (nil-append t) refl
scan-append acc (String.◌∷◌ c s) t =
    rw (cons-append c s t) (scan-append (acc * 10 + (code c - b'0')) s t)

le-scan : (acc : ℕ) (s : String) → acc ≤ scan acc s
unfolding scan
le-scan acc String.[] = omega arith
le-scan acc (String.◌∷◌ c s) =
    let h = le-scan (acc * 10 + (code c - b'0')) s in
    let k : acc ≤ scan (acc * 10 + (code c - b'0')) s = omega (arith, h) in k

-- Digits that begin digits, which no digit follows, begin these alone.
digits_within :
    (d e u x : String)
    → all_codes is_digit d ≡ true
    → ends_number x ≡ true
    → d ++ u ≡ e ++ x
    → (w : String) × (e ≡ d ++ w)
unfolding ends_number
digits_within String.[] e u x h n eq = (e, sym (nil-append e))
digits_within (String.◌∷◌ c d) String.[] u x h n eq =
    let e : x ≡ String.◌∷◌ c (d ++ u) = sym (nil-append x) ∙ sym eq ∙ cons-append c d u in
    let other : not (is_digit (code c)) ≡ true = subst (λ z. ends_number z ≡ true) e n in
    let first : is_digit (code c) ≡ true =
      (and_true (is_digit (code c)) (all_codes is_digit d) h).0 in
    let k : false ≡ true = subst (λ z. not z ≡ true) first other in absurd (cc)
digits_within (String.◌∷◌ c d) (String.◌∷◌ b e) u x h n eq =
    let whole = sym (cons-append c d u) ∙ eq ∙ cons-append b e x in
    let rest = (and_true (is_digit (code c)) (all_codes is_digit d) h).1 in
    let (w, inner) = digits_within d e u x rest n (tail-eq_of_cons-eq whole) in
    (
      w,
      ap (λ z. String.◌∷◌ b z) inner
          ∙ ap (λ z. String.◌∷◌ z (d ++ w)) (sym (head-eq_of_cons-eq whole))
          ∙ sym (cons-append c d w),
    )

le_lt : (k m : ℕ) → suc k ≤ suc m → ¬ (m < k)
le_lt k m h = omega arith

-- A placeholder of a smaller number does not start with one of a larger number, whatever follows it that is
-- no digit.
pub starts_smaller :
    (k m : ℕ) (x : String)
    → m < k
    → ends_number x ≡ true
    → starts_with (placeholder m ++ x) (placeholder k) ≡ false
unfolding placeholder IsDecimal
starts_smaller k m x lt n = elim (Bool-cases (starts_with (placeholder m ++ x) (placeholder k))) [
  | inr other ↦ other
  | inl starts ↦
      let (u, e) = (starts_with_iff (placeholder m ++ x) (placeholder k)).0 starts in
      let d = format_nat (suc k) in
      let f = format_nat (suc m) in
      let (filled, digits, value) = format_nat-IsDecimal (suc k) in
      let (filled', digits', value') = format_nat-IsDecimal (suc m) in
      let inner : d ++ u ≡ f ++ x = tail-eq_of_cons-eq (
        sym (ap (λ z. z ++ u) (placeholder-cons k) ∙ cons-append "$" d u)
        ∙ e
        ∙ (ap (λ z. z ++ x) (placeholder-cons m) ∙ cons-append "$" f x)) in
      let (w, longer) = digits_within d f u x digits n inner in
      let above = le-scan (scan 0 d) w in
      let same : scan 0 f ≡ scan (scan 0 d) w = ap (scan 0) longer ∙ scan-append 0 d w in
      let h : suc k ≤ suc m = omega (arith, above, same, value, value') in absurd (le_lt k m h lt)
]
