-- ===== src/Store/Identifiers.antt =====
-- Identifiers in SQL, as the engines read them.
use Prim.Native.Char.{Char, code}
use Prim.Native.String.{◌++◌}
use text.Mathlib.TextLemmas.{nil-append, cons-append, append_assoc}
use mobility_api.Base.{
  String, ◌≡◌, refl, ap, ◌∙◌, Bool, true, false, Option, none, some, eqb, if◌then◌else◌, Bool-cases,
  inl, inr,
}
use mobility_api.Store.{ident, doubled}

with_char : Char → Option (String × String) → Option (String × String)
with_char c none = none
with_char c (some (name, rest)) = some (String.◌∷◌ c name, rest)

-- SQL's reading of a quoted identifier behind its first quote: two quotes stand for one, and one quote
-- ends it. The flag says that the last character was a quote that no other has met yet.
unfoldable pub read_quoted : Bool → String → Option (String × String)
unfolding with_char
read_quoted true String.[] = some ("", "")
read_quoted false String.[] = none
read_quoted true (String.◌∷◌ c s) =
    let again = with_char c (read_quoted false s) in
    if eqb (code c) b'"' then again else some ("", String.◌∷◌ c s)
read_quoted false (String.◌∷◌ c s) =
    let closing = read_quoted true s in
    let inside = with_char c (read_quoted false s) in if eqb (code c) b'"' then closing else inside

-- What follows an identifier does not begin with a quote.
abbrev Separated : String → Type 0
Separated String.[] = Unit
Separated (String.◌∷◌ c s) = eqb (code c) b'"' ≡ false

read_end : (rest : String) → Separated rest → read_quoted true rest ≡ some ("", rest)
unfolding read_quoted
read_end String.[] h = refl
read_end (String.◌∷◌ c s) h = rw h refl

quote_append : (r : String) → "\"" ++ r ≡ String.◌∷◌ "\"" r
quote_append r = cons-append "\"" "" r ∙ ap (λ s. String.◌∷◌ "\"" s) (nil-append r)

-- The readings of one character, inside and behind a quote.
module _ (c : Char) (s : String) where
  inside_other :
      eqb (code c) b'"' ≡ false
      → read_quoted false (String.◌∷◌ c s) ≡ with_char c (read_quoted false s)
  unfolding read_quoted
  inside_other e = rw e refl

  inside_quote : eqb (code c) b'"' ≡ true → read_quoted false (String.◌∷◌ c s) ≡ read_quoted true s
  unfolding read_quoted
  inside_quote e = rw e refl

  behind_quote :
      eqb (code c) b'"' ≡ true
      → read_quoted true (String.◌∷◌ c s) ≡ with_char c (read_quoted false s)
  unfolding read_quoted
  behind_quote e = rw e refl

  doubled_quote :
      eqb (code c) b'"' ≡ true → doubled (String.◌∷◌ c s) ≡ String.◌∷◌ c (String.◌∷◌ c (doubled s))
  unfolding doubled
  doubled_quote e = rw e refl

  doubled_other : eqb (code c) b'"' ≡ false → doubled (String.◌∷◌ c s) ≡ String.◌∷◌ c (doubled s)
  unfolding doubled
  doubled_other e = rw e refl

-- The text that is read: the rest of a quoted name, the closing quote, and what follows it.
abbrev closed_by : String → String → String
closed_by d rest = d ++ ("\"" ++ rest)

read_doubled :
    (s rest : String)
    → Separated rest
    → read_quoted false (closed_by (doubled s) rest) ≡ some (s, rest)
unfolding read_quoted doubled with_char
read_doubled String.[] rest h = simp (nil-append, quote_append) (read_end rest h)
read_doubled (String.◌∷◌ c s) rest h =
    let t = "\"" ++ rest in
    elim (Bool-cases (eqb (code c) b'"')) [
      | inl e ↦
          ap (λ d. read_quoted false (closed_by d rest)) (doubled_quote c s e)
          ∙ (ap (read_quoted false) (
                cons-append c (String.◌∷◌ c (doubled s)) t
                ∙ ap (λ z. String.◌∷◌ c z) (cons-append c (doubled s) t))
              ∙ (inside_quote c (String.◌∷◌ c (closed_by (doubled s) rest)) e
                  ∙ (behind_quote c (closed_by (doubled s) rest) e
                      ∙ ap (with_char c) (read_doubled s rest h))))
      | inr e ↦
          ap (λ d. read_quoted false (closed_by d rest)) (doubled_other c s e)
          ∙ (ap (read_quoted false) (cons-append c (doubled s) t)
              ∙ (inside_other c (closed_by (doubled s) rest) e
                  ∙ ap (with_char c) (read_doubled s rest h)))
    ]

unfoldable pub read_ident : String → Option (String × String)
read_ident String.[] = none
read_ident (String.◌∷◌ c s) = if eqb (code c) b'"' then read_quoted false s else none

-- Whatever a table is called, SQL reads its identifier back as that name, and what follows the
-- identifier, unless it begins with a quote, is read as what follows it: a name cannot end its
-- identifier early.
pub ident-reads_back :
    (s rest : String) → Separated rest → read_ident (ident s ++ rest) ≡ some (s, rest)
unfolding ident read_ident read_quoted
ident-reads_back s rest h =
    ap read_ident (
      append_assoc "\"" (doubled s ++ "\"") rest
      ∙ (ap (λ z. "\"" ++ z) (append_assoc (doubled s) "\"" rest)
          ∙ quote_append (closed_by (doubled s) rest)))
    ∙ read_doubled s rest h
