-- ===== src/Spark/Statement.antt =====
-- dialect_spark.go: a statement with places for its arguments, apart from its text.
use Prim.Native.Char.{code}
use Prim.Native.String.{◌++◌}
use text.Mathlib.TextLemmas.{cons-append}
use mobility_api.Base.{
  ℕ, zero, suc, ◌<◌, String, ◌≡◌, refl, ap, Bool, true, false, not, List, [], ◌∷◌, arith, eqb,
}
use mobility_api.Base.Text.{is_digit, all_codes}
use mobility_api.Base.Split.{all_codes_weaken}
use mobility_api.Base.Float.{Float}
use mobility_api.Base.Json.{Json}
use mobility_api.Base.Replace.{is_free}
use mobility_api.Backend.{Value}
use mobility_api.Spark.{spark_literal}
use mobility_api.Spark.Places.{ends_number}

-- A statement in parts: a text, or the place of the n-th argument, counted from 0.
pub data Piece : Type 0 where
  plain : String → Piece
  place : ℕ → Piece

-- The text of the parts, with `f` at their places.
unfoldable pub render : (ℕ → String) → List Piece → String
render f [] = ""
render f (plain s ∷ ps) = s ++ render f ps
render f (place n ∷ ps) = f n ++ render f ps

-- What follows a place is the end, or a text whose first character is no digit.
unfoldable pub is_apart : List Piece → Bool
is_apart [] = true
is_apart (plain String.[] ∷ ps) = false
is_apart (plain (String.◌∷◌ c s) ∷ ps) = not (is_digit (code c))
is_apart (place n ∷ ps) = false

-- A statement on `bound` arguments, without a dollar sign but at its places.
unfoldable pub IsStatement : ℕ → List Piece → Type 0
unfolding is_free is_apart
IsStatement bound [] = Unit
IsStatement bound (plain s ∷ ps) = (is_free "$" s ≡ true) × IsStatement bound ps
IsStatement bound (place n ∷ ps) = (n < bound) × (is_apart ps ≡ true) × IsStatement bound ps

pub ends_number-render :
    (f : ℕ → String) (ps : List Piece) → is_apart ps ≡ true → ends_number (render f ps) ≡ true
unfolding render is_apart ends_number
ends_number-render f [] h = refl
ends_number-render f (plain String.[] ∷ ps) h = absurd (cc)
ends_number-render f (plain (String.◌∷◌ c s) ∷ ps) h = rw (cons-append c s (render f ps)) h
ends_number-render f (place n ∷ ps) h = absurd (cc)

pub render-agree :
    (bound : ℕ) (f g : ℕ → String)
    → ((n : ℕ) → n < bound → f n ≡ g n)
    → (ps : List Piece) → IsStatement bound ps
    → render f ps ≡ render g ps
unfolding render IsStatement
render-agree bound f g e [] h = refl
render-agree bound f g e (plain s ∷ ps) h = ap (λ z. s ++ z) (render-agree bound f g e ps h.1)
render-agree bound f g e (place n ∷ ps) h =
    rw (e n h.0) (ap (λ z. g n ++ z) (render-agree bound f g e ps h.2))

-- A digit is no dollar sign.
pub digits_free : (s : String) → all_codes is_digit s ≡ true → is_free "$" s ≡ true
unfolding is_free
digits_free s h = all_codes_weaken is_digit (λ c. not (eqb c b'$')) (λ c d. ground arith) s h

module _ (format_float : Float → String) (marshal : Json → String) where
  -- The literal of the n-th argument.
  unfoldable pub literal_at : List Value → ℕ → String
  unfolding spark_literal
  literal_at [] n = ""
  literal_at (v ∷ vs) zero = spark_literal format_float marshal v
  literal_at (v ∷ vs) (suc n) = literal_at vs n

  -- The literal of an argument holds no dollar sign.
  unfoldable pub IsFree : Value → Type 0
  unfolding is_free
  IsFree v = is_free "$" (spark_literal format_float marshal v) ≡ true
