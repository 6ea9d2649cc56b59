-- ===== src/Store/Answers.antt =====
-- main.go: what a step of a handler has seen when the handler goes on.
use mobility_api.Base.{◌≡◌, ap, String, List, [], ◌∷◌, Option, none, some}
use mobility_api.Backend.{Value, null, int, text, float, doc}
use mobility_api.Http.{
  Error, no_rows, status_err, failed, Response, Result, ok, err, ok_injective, err_ne_ok, go,
  some_or, or_respond,
}
use mobility_api.Store.{row_or, scan_text}

pub some_or_inversion :
    {S A : Type 0} (o : Option A) (r : Response) (t : S) {a : A}
    → (some_or o r t).0 ≡ go a
    → o ≡ some a
some_or_inversion none r t h = absurd (cc)
some_or_inversion (some a) r t h = cc

pub row_or_inversion :
    {S : Type 0} (missing : Response) (f : Error → Response) (o : Result (List Value)) (t : S)
    {row : List Value}
    → (row_or missing f o t).0 ≡ go row
    → o ≡ ok row
row_or_inversion missing f (ok a) t h = cc
row_or_inversion missing f (err no_rows) t h = absurd (cc)
row_or_inversion missing f (err (status_err c x)) t h = absurd (cc)
row_or_inversion missing f (err (failed x)) t h = absurd (cc)

pub or_respond_inversion :
    {S A : Type 0} (o : Result A) (f : Error → Response) (t : S) {a : A}
    → (or_respond o f t).0 ≡ go a
    → o ≡ ok a
or_respond_inversion (ok a) f t h = cc
or_respond_inversion (err x) f t h = absurd (cc)

pub scan_text_inversion : (row : List Value) {s : String} → scan_text row ≡ ok s → row ≡ text s ∷ []
unfolding scan_text
scan_text_inversion (text s ∷ []) h = ap (λ z. text z ∷ []) (ok_injective h)
scan_text_inversion [] h = absurd (err_ne_ok h)
scan_text_inversion (null ∷ []) h = absurd (err_ne_ok h)
scan_text_inversion (int n ∷ []) h = absurd (err_ne_ok h)
scan_text_inversion (float x ∷ []) h = absurd (err_ne_ok h)
scan_text_inversion (doc v ∷ []) h = absurd (err_ne_ok h)
scan_text_inversion (null ∷ v ∷ vs) h = absurd (err_ne_ok h)
scan_text_inversion (int n ∷ v ∷ vs) h = absurd (err_ne_ok h)
scan_text_inversion (text s ∷ v ∷ vs) h = absurd (err_ne_ok h)
scan_text_inversion (float x ∷ v ∷ vs) h = absurd (err_ne_ok h)
scan_text_inversion (doc w ∷ v ∷ vs) h = absurd (err_ne_ok h)
