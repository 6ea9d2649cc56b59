-- ===== src/Http.antt =====
-- main.go: responses, errors and the helpers over them; a handler is a function of the state.
use mobility_api.Base.{
  Bool, true, false, ℕ, String, List, [], ◌∷◌, Option, none, some, lookup, ◌≡◌, ◌≢◌, refl, ap, ◌⊎◌,
  inl, inr,
}
use mobility_api.Base.Int.{pos, itoa}
use mobility_api.Base.Json.{Json, str, object}

-- A Go error: the sentinel ErrNoRows, a statusErr, or any other with its text.
pub data Error : Type 0 where
  no_rows : Error
  status_err : ℕ → String → Error
  failed : String → Error

unfoldable pub error_text : Error → String
error_text no_rows = "no rows in result set"
error_text (status_err code text) = text
error_text (failed text) = text

-- The status that an error names, or the default.
unfoldable pub err_status : Error → ℕ → ℕ
err_status (status_err code text) default = code
err_status no_rows default = default
err_status (failed text) default = default

pub data Result {ℓ} (A : Type ℓ) : Type ℓ where
  ok : A → Result A
  err : Error → Result A

pub Result-cases :
    {A : Type 0} (r : Result A) → ((e : Error) × (r ≡ err e)) ⊎ ((a : A) × (r ≡ ok a))
Result-cases (err e) = inl (e, refl)
Result-cases (ok a) = inr (a, refl)

module _ {A : Type 0} where
  unfoldable is_ok : Result A → Bool
  is_ok (err e) = false
  is_ok (ok a) = true

  value_or : A → Result A → A
  value_or a (err e) = a
  value_or a (ok b) = b

  pub err_ne_ok : {e : Error} {a : A} → err e ≢ ok a
  unfolding is_ok
  err_ne_ok h = let k : false ≡ true = ap is_ok h in absurd (cc)

  pub ok_injective : {a b : A} → ok a ≡ ok b → a ≡ b
  unfolding value_or
  ok_injective {a} h = ap (value_or a) h

-- What a handler writes: the status, the headers that it sets beyond the content type, the body.
pub record Response : Type 0 where
  pub status : ℕ
  pub headers : List (String × String)
  pub body : Option Json

abbrev pub write_json : ℕ → Json → Response
write_json code v = record { status = code; headers = []; body = some v }

abbrev pub write_header : ℕ → Response
write_header code = record { status = code; headers = []; body = none }

abbrev pub http_err : ℕ → String → Response
http_err code desc =
    write_json code (object (("code", str (itoa (pos code))) ∷ ("description", str desc) ∷ []))

-- A handler step over the state `S`: it goes on with a value, or it has written the response.
pub data Outcome {ℓ} (A : Type ℓ) : Type ℓ where
  go : A → Outcome A
  done : Response → Outcome A

abbrev pub Handler : Type 0 → Type 0 → Type 0
Handler S A = S → Outcome A × S

module _ {S A B : Type 0} where
  abbrev pub continue : Outcome A → (A → Handler S B) → Handler S B
  continue (go a) f s = f a s
  continue (done r) f s = (done r, s)

  infixl 5 ◌>>=◌ ◌>>◌
  abbrev pub ◌>>=◌ : Handler S A → (A → Handler S B) → Handler S B
  ◌>>=◌ m f s = continue (m s).0 f (m s).1

  abbrev pub ◌>>◌ : Handler S A → Handler S B → Handler S B
  m >> n = m >>= λ _. n

module _ {S A : Type 0} where
  abbrev pub pure : A → Handler S A
  pure a s = (go a, s)

  abbrev pub respond : Response → Handler S A
  respond r s = (done r, s)

  -- The value, or the response that an early return writes for the error.
  abbrev pub or_respond : Result A → (Error → Response) → Handler S A
  or_respond (ok a) f s = (go a, s)
  or_respond (err e) f s = (done (f e), s)

  abbrev pub some_or : Option A → Response → Handler S A
  some_or (some a) r s = (go a, s)
  some_or none r s = (done r, s)

abbrev pub require : {S : Type 0} → Bool → Response → Handler S (Unit {0})
require true r = pure tt
require false r = respond r

-- The query parameters: each name with its values.
abbrev pub Query : Type 0
Query = List (String × List String)

abbrev head_or_empty : Option (List String) → String
head_or_empty none = ""
head_or_empty (some []) = ""
head_or_empty (some (v ∷ vs)) = v

-- first and url.Values.Get
unfoldable pub first : Query → String → String
first q k = head_or_empty (lookup k q)
