-- ===== src/Spark/Rewrite.antt =====
-- dialect_spark.go: rewriteSparkSQL, with its three regular expressions as scans of the text.
use Prim.Native.Char.{code}
use Prim.Native.String.{◌++◌, count}
use text.Mathlib.Text.{starts_with}
use mobility_api.Base.{
  ℕ, zero, suc, ◌-◌, ◌+◌, String, Bool, true, false, not, ◌&&◌, ◌||◌, List, [], ◌∷◌, Option, none,
  some, ◌≡◌, refl, eqb, if◌then◌else◌,
}
use mobility_api.Base.Text.{is_nil, is_digit, between, to_lower}

-- sparkNameMap
unfoldable pub spark_name_map : List (String × String)
spark_name_map =
    ("asMFJSON", "temporalAsMfjson")
    ∷ ("tgeompointFromMFJSON", "tgeompointFromMfjson")
    ∷ ("Xmin", "stboxXmin")
    ∷ ("Ymin", "stboxYmin")
    ∷ ("Xmax", "stboxXmax")
    ∷ ("Ymax", "stboxYmax")
    ∷ ("Tmin", "stboxTmin")
    ∷ ("Tmax", "stboxTmax")
    ∷ ("azimuth", "tpointAzimuth")
    ∷ []

-- \w and \s
is_word : ℕ → Bool
is_word c = is_digit c || (between b'A' b'Z' c || (between b'a' b'z' c || eqb c b'_'))

is_blank : ℕ → Bool
is_blank c = eqb c 32 || (eqb c 9 || (eqb c 10 || (eqb c 12 || eqb c 13)))

-- What a match is replaced by, and its length.
Match : Type 0
Match = Option (String × ℕ)

-- regexp's ReplaceAll: `find` takes whether a word character stands in front, and the text from there on;
-- the number counts the characters of a match that are left.
replace_matches : (Bool → String → Match) → ℕ → Bool → String → String
unfolding Match is_word
replace_matches find k word String.[] = ""
replace_matches find (suc k) word (String.◌∷◌ c s) = replace_matches find k (is_word (code c)) s
replace_matches find zero word (String.◌∷◌ c s) =
    let miss = String.◌∷◌ c (replace_matches find zero (is_word (code c)) s) in
    elim (find word (String.◌∷◌ c s)) [
      | none ↦ miss
      | some (out, n) ↦ out ++ replace_matches find (n - 1) (is_word (code c)) s
    ]

drop : ℕ → String → String
drop zero s = s
drop (suc k) String.[] = ""
drop (suc k) (String.◌∷◌ c s) = drop k s

-- The white space in front of a text, and the rest.
take_blank : String → String × String
unfolding is_blank
take_blank String.[] = ("", "")
take_blank (String.◌∷◌ c s) =
    let (blanks, rest) = take_blank s in
    if is_blank (code c) then (String.◌∷◌ c blanks, rest) else ("", String.◌∷◌ c s)

-- strings.TrimRight leaves nothing of these, so the name behind them is found.
only_spaces : String → Bool
only_spaces String.[] = true
only_spaces (String.◌∷◌ c s) = (eqb (code c) 32 || eqb (code c) 9) && only_spaces s

opens : String → String × String → Match
unfolding Match only_spaces
opens name (blanks, String.[]) = none
opens name (blanks, String.◌∷◌ c rest) =
    if eqb (code c) b'('
    then some ((if only_spaces blanks then name else "") ++ "(", count blanks + 1)
    else none

longer : ℕ → Match → Match
unfolding Match
longer n none = none
longer n (some (out, m)) = some (out, n + m)

call_of : List (String × String) → String → Match
unfolding Match opens longer drop take_blank
call_of [] s = none
call_of ((key, name) ∷ names) s =
    let here = longer (count key) (opens name (take_blank (drop (count key) s))) in
    let rest = call_of names s in
    if starts_with s key then elim here [ some m ↦ some m | none ↦ rest ] else rest

-- sparkFnCall: a name at the start of a word, white space, and a parenthesis.
function_call : Bool → String → Match
unfolding Match call_of
function_call word s = if word then none else call_of spark_name_map s

take_name : String → String × String
take_name String.[] = ("", "")
take_name (String.◌∷◌ c s) =
    let (name, rest) = take_name s in
    if eqb (code c) b'"' then ("", String.◌∷◌ c s) else (String.◌∷◌ c name, rest)

closed_name : String × String → Match
unfolding Match
closed_name (name, String.[]) = none
closed_name (name, String.◌∷◌ c rest) =
    if is_nil name then none else some ("`" ++ (name ++ "`"), count name + 2)

-- sparkIdent
quoted_name : Bool → String → Match
unfolding Match closed_name take_name
quoted_name word String.[] = none
quoted_name word (String.◌∷◌ c s) = if eqb (code c) b'"' then closed_name (take_name s) else none

-- Whether no word character follows.
ends_word : String → Bool
unfolding is_word
ends_word String.[] = true
ends_word (String.◌∷◌ c s) = not (is_word (code c))

type_at : String → String → Match
unfolding Match ends_word drop
type_at name s =
    if starts_with (to_lower s) name && ends_word (drop (count name) s)
    then some ("AS string", count name)
    else none

behind_as : String × String → Match
unfolding Match type_at longer
behind_as (blanks, rest) =
    let found : Match = elim (type_at "text" rest) [
      | some m ↦ some m
      | none ↦ type_at "jsonb" rest
    ] in
    if is_nil blanks then none else longer (2 + count blanks) found

-- sparkTextCast
text_cast : Bool → String → Match
unfolding Match behind_as take_blank drop
text_cast word s =
    if word
    then none
    else if starts_with (to_lower s) "as"
    then behind_as (take_blank (drop 2 s))
    else none

-- rewriteSparkSQL
unfoldable pub rewrite_spark_sql : String → String
unfolding Match function_call quoted_name text_cast replace_matches
rewrite_spark_sql sql =
    replace_matches text_cast 0 false
      (replace_matches quoted_name 0 false (replace_matches function_call 0 false sql))

rewrite_tests :
    (rewrite_spark_sql "SELECT asMFJSON(trip), Xmin (b) FROM \"ships\""
      ≡ "SELECT temporalAsMfjson(trip), stboxXmin(b) FROM `ships`")
    × (rewrite_spark_sql "CAST(Tmin(b) AS text), p as JSONB"
        ≡ "CAST(stboxTmin(b) AS string), p AS string")
    × (rewrite_spark_sql "eXmin(b) AS textual" ≡ "eXmin(b) AS textual")
unfolding rewrite_spark_sql spark_name_map to_lower
rewrite_tests = (refl, refl, refl)
