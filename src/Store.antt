-- ===== src/Store.antt =====
-- main.go: what the handlers share: the registry lookup, identifiers, and a transaction's frame.
pub mod Identifiers
pub mod Answers
use Prim.Native.Char.{code}
use Prim.Native.String.{◌++◌}
use mobility_api.Base.{
  ℕ, String, ◌≡◌, refl, sym, ap, ◌∙◌, Bool, false, ◌&&◌, if◌then◌else◌, ◌||◌, List, [], ◌∷◌, Option,
  none, some, eqb,
}
use mobility_api.Base.Text.{between, is_digit, all_codes}
use mobility_api.Base.Int.{ℤ, atoi}
use mobility_api.Base.Json.{Json}
use mobility_api.Backend.{Value, null, int, text, doc, Backend, IsTransactional}
use mobility_api.Http.{
  Error, no_rows, status_err, failed, respond, pure, error_text, Result, ok, err, Response,
  http_err, Outcome, go, done, Handler, some_or,
}

-- strings.ReplaceAll(s, `"`, `""`)
unfoldable pub doubled : String → String
doubled String.[] = ""
doubled (String.◌∷◌ c s) =
    let rest = String.◌∷◌ c (doubled s) in if eqb (code c) b'"' then String.◌∷◌ c rest else rest

-- The name as a quoted identifier.
unfoldable pub ident : String → String
unfolding doubled
ident s = "\"" ++ (doubled s ++ "\"")

id_start : ℕ → Bool
id_start c = between b'a' b'z' c || eqb c b'_'

id_part : ℕ → Bool
unfolding id_start
id_part c = id_start c || is_digit c

-- ^[a-z_][a-z0-9_]*$
unfoldable pub valid_id : String → Bool
unfolding id_start id_part
valid_id String.[] = false
valid_id (String.◌∷◌ c s) = id_start (code c) && all_codes id_part s

-- Scan(&table, &srid), with any failure read as not found.
unfoldable collection_row : Result (List Value) → Option (String × ℤ)
collection_row (ok (text table ∷ int srid ∷ [])) = some (table, srid)
collection_row _ = none

abbrev pub no_collection : Response
no_collection = http_err 404 "collection not found"

abbrev pub no_feature : Response
no_feature = http_err 404 "feature not found"

abbrev bad_fid : Response
bad_fid = http_err 400 "invalid feature id"

abbrev pub server_error : Error → Response
server_error e = http_err 500 (error_text e)

abbrev pub bad_request : Error → Response
bad_request e = http_err 400 (error_text e)

-- The response of a handler that has run, and the database after it.
abbrev pub response_of : Outcome Response → Response
response_of (go r) = r
response_of (done r) = r

abbrev pub serve : {S : Type 0} → Handler S Response → S → Response × S
serve h s = (response_of (h s).0, (h s).1)

abbrev pub require_fid : {S : Type 0} → String → Handler S ℤ
require_fid fid = some_or (atoi fid) bad_fid

-- The columns of the row: no row gets the response `missing`, any other error `fail`.
abbrev pub row_or :
    {S : Type 0} → Response → (Error → Response) → Result (List Value) → Handler S (List Value)
row_or missing fail (err no_rows) = respond missing
row_or missing fail (err (status_err code e)) = respond (fail (status_err code e))
row_or missing fail (err (failed e)) = respond (fail (failed e))
row_or missing fail (ok row) = pure row

-- Scan into one string, into three, and into a pointer to an int.
abbrev pub scan_failure : Error
scan_failure = failed "can't scan into dest"

unfoldable pub scan_text : List Value → Result String
scan_text (text s ∷ []) = ok s
scan_text _ = err scan_failure

unfoldable pub scan_texts : List Value → Result (String × String × String)
scan_texts (text a ∷ text b ∷ text c ∷ []) = ok (a, b, c)
scan_texts _ = err scan_failure

unfoldable pub scan_count : List Value → Result (Option ℤ)
scan_count (int n ∷ []) = ok (some n)
scan_count (null ∷ []) = ok none
scan_count _ = err scan_failure

-- A document, null where the column is.
unfoldable pub scan_doc : List Value → Result Json
scan_doc (doc v ∷ []) = ok v
scan_doc (null ∷ []) = ok Json.null
scan_doc _ = err scan_failure

module _ {S T : Type 0} (db : Backend S T) where
  -- collectionMeta
  unfoldable pub collection_meta : String → S → Option (String × ℤ)
  unfolding collection_row
  collection_meta cid s =
      collection_row (db.query_row s "SELECT id, crs FROM collections WHERE id=$1" (text cid ∷ []))

  abbrev pub require_collection : String → Handler S (String × ℤ)
  require_collection cid s = some_or (collection_meta cid s) no_collection s

module _ {S T : Type 0} (db : Backend S T) where
  abbrev pub tx_query_row : String → List Value → Handler T (Result (List Value))
  tx_query_row sql args t = (go (db.tx_query_row t sql args), t)

  abbrev pub tx_exec : String → List Value → Handler T (Result ℕ)
  tx_exec sql args t = (go (db.tx_exec t sql args).0, (db.tx_exec t sql args).1)

-- `fail` is the response to an error of Begin and of Commit.
module _ {S T A : Type 0} (db : Backend S T) (fail : Error → Response) where
  abbrev committed : A → Result (Unit {0}) × S → Outcome A × S
  committed a (ok u, s) = (go a, s)
  committed a (err e, s) = (done (fail e), s)

  -- An early response rolls the transaction back, by the deferred call; its end commits it.
  abbrev pub close : S → Outcome A × T → Outcome A × S
  close s (done r, t) = (done r, db.rollback t s)
  close s (go a, t) = committed a (db.commit t s)

  abbrev begun : Handler T A → S → Result T → Outcome A × S
  begun body s (err e) = (done (fail e), s)
  begun body s (ok t) = close s (body t)

  -- db.Begin, `body` on the transaction, and Commit.
  unfoldable pub in_transaction : Handler T A → Handler S A
  in_transaction body s = begun body s (db.begin s)

  committed_fails :
      IsTransactional db
      → (a : A) (t : T) (s : S) (r : Response) → (committed a (db.commit t s)).0 ≡ done r
      → (committed a (db.commit t s)).1 ≡ s
  committed_fails law a t s r h = go_on (db.commit t s) refl h
    where
      go_on :
          (p : Result (Unit {0}) × S)
          → db.commit t s ≡ p
          → (committed a p).0 ≡ done r
          → (committed a p).1 ≡ s
      go_on (ok u, s') e k = cc
      go_on (err x, s') e k = ap (λ q. q.1) (sym e) ∙ law.commit_fails t s x (ap (λ q. q.0) e)

  close_fails :
      IsTransactional db
      → (s : S) (p : Outcome A × T) (r : Response) → (close s p).0 ≡ done r
      → (close s p).1 ≡ s
  close_fails law s (done r', t) r h = law.rollback_lem t s
  close_fails law s (go a, t) r h = committed_fails law a t s r h

  begun_fails :
      IsTransactional db
      → (body : Handler T A) (s : S) (t : Result T) (r : Response) → (begun body s t).0 ≡ done r
      → (begun body s t).1 ≡ s
  begun_fails law body s (err e) r h = refl
  begun_fails law body s (ok t) r h = close_fails law s (body t) r h

  -- A request whose transaction answers early leaves the database as it was.
  pub in_transaction_fails :
      IsTransactional db
      → (body : Handler T A) (s : S) (r : Response) → (in_transaction body s).0 ≡ done r
      → (in_transaction body s).1 ≡ s
  unfolding in_transaction
  in_transaction_fails law body s r h = begun_fails law body s (db.begin s) r h
