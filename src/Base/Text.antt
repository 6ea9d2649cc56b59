-- ===== src/Base/Text.antt =====
-- What the tier uses of Go's `strings` package, over native texts. A character is a code point, and
-- the case mappings are those of the ASCII letters.
use Prim.Native.Nat.{ℕ, zero, suc, pred}
use Prim.Native.Char.{Char, code}
use Prim.Native.String.{String, [], ◌∷◌, ◌++◌, count}
use mathlib.Core.Path.{◌≡◌, refl}
use mathlib.Core.Bool.{Bool, true, false, ◌&&◌, ◌||◌}
use mathlib.Core.List.{List}
use mathlib.Core.Option.{Option, none, some}
use text.Mathlib.Text.{starts_with}
use mobility_api.Base.Tests.{leb, eqb, if◌then◌else◌}

-- The character at the same place of `to` as `c` has in `from`, else `c`.
translate : String → String → Char → Char
translate [] to c = c
translate (a ∷ from) [] c = c
translate (a ∷ from) (b ∷ to) c = if eqb (code a) (code c) then b else translate from to c

unfoldable pub to_lower : String → String
unfolding translate
to_lower [] = []
to_lower (c ∷ s) =
    translate "ABCDEFGHIJKLMNOPQRSTUVWXYZ" "abcdefghijklmnopqrstuvwxyz" c ∷ to_lower s

unfoldable pub to_upper : String → String
unfolding translate
to_upper [] = []
to_upper (c ∷ s) =
    translate "abcdefghijklmnopqrstuvwxyz" "ABCDEFGHIJKLMNOPQRSTUVWXYZ" c ∷ to_upper s

abbrev pub between : ℕ → ℕ → ℕ → Bool
between lo hi n = leb lo n && leb n hi

-- unicode.IsSpace
unfoldable is_space : ℕ → Bool
is_space n =
    between 9 13 n
    || eqb n 32
    || eqb n 0x85
    || eqb n 0xa0
    || eqb n 0x1680
    || between 0x2000 0x200a n
    || between 0x2028 0x2029 n
    || eqb n 0x202f
    || eqb n 0x205f
    || eqb n 0x3000

abbrev pub is_nil : String → Bool
is_nil [] = true
is_nil (c ∷ s) = false

trim_left : (ℕ → Bool) → String → String
trim_left p [] = []
trim_left p (c ∷ s) = if p (code c) then trim_left p s else c ∷ s

trim_right : (ℕ → Bool) → String → String
trim_right p [] = []
trim_right p (c ∷ s) =
    let rest = trim_right p s in if p (code c) && is_nil rest then [] else c ∷ rest

-- strings.TrimFunc
unfoldable pub trim : (ℕ → Bool) → String → String
unfolding trim_left trim_right
trim p s = trim_right p (trim_left p s)

unfoldable pub trim_space : String → String
unfolding trim is_space
trim_space = trim is_space

-- The text before and after the first character `d`.
unfoldable pub cut : ℕ → String → Option (String × String)
cut d [] = none
cut d (c ∷ s) =
    let rest = cut d s in
    if eqb (code c) d
    then some ([], s)
    else elim rest [ none ↦ none | some p ↦ some (c ∷ p.0, p.1) ]

glue : Char → List String → List String
glue c List.[] = List.◌∷◌ (c ∷ []) List.[]
glue c (List.◌∷◌ s ss) = List.◌∷◌ (c ∷ s) ss

-- strings.Split at a one-character separator.
unfoldable pub split : ℕ → String → List String
unfolding glue
split d [] = List.◌∷◌ [] List.[]
split d (c ∷ s) = let rest = split d s in if eqb (code c) d then List.◌∷◌ [] rest else glue c rest

-- strings.Join
abbrev pub join : String → List String → String
join sep List.[] = []
join sep (List.◌∷◌ s List.[]) = s
join sep (List.◌∷◌ s (List.◌∷◌ t ts)) = s ++ (sep ++ join sep (List.◌∷◌ t ts))

-- strings.Contains
unfoldable pub contains : String → String → Bool
contains [] t = starts_with [] t
contains (c ∷ s) t = starts_with (c ∷ s) t || contains s t

-- strings.ReplaceAll of a text that is not empty; the number counts the characters to skip.
unfoldable pub replace_from : ℕ → String → String → String → String
replace_from k old new [] = []
replace_from (suc k) old new (c ∷ s) = replace_from k old new s
replace_from zero old new (c ∷ s) =
    let hit = new ++ replace_from (pred (count old)) old new s in
    let miss = c ∷ replace_from zero old new s in if starts_with (c ∷ s) old then hit else miss

unfoldable pub replace_all : String → String → String → String
unfolding replace_from
replace_all s old new = replace_from zero old new s

drop_text : String → String → String
drop_text [] s = s
drop_text (d ∷ old) [] = []
drop_text (d ∷ old) (c ∷ s) = drop_text old s

-- strings.Replace of the first place only.
unfoldable pub replace_first : String → String → String → String
unfolding drop_text
replace_first [] old new = []
replace_first (c ∷ s) old new =
    let rest = replace_first s old new in
    if starts_with (c ∷ s) old then new ++ drop_text old (c ∷ s) else c ∷ rest

abbrev pub is_digit : ℕ → Bool
is_digit = between b'0' b'9'

-- The longest prefix of digits, and the rest.
unfoldable pub take_digits : String → String × String
take_digits [] = ([], [])
take_digits (c ∷ s) =
    let (ds, rest) = take_digits s in if is_digit (code c) then (c ∷ ds, rest) else ([], c ∷ s)

-- All code points satisfy the test.
abbrev pub all_codes : (ℕ → Bool) → String → Bool
all_codes p [] = true
all_codes p (c ∷ s) = p (code c) && all_codes p s

text_tests :
    (to_lower " TReal 9" ≡ " treal 9")
    × (trim_space "  a b  " ≡ "a b")
    × (split b',' "a,,b" ≡ List.◌∷◌ "a" (List.◌∷◌ "" (List.◌∷◌ "b" List.[])))
    × (replace_all "a$1b$1" "$1" "x" ≡ "axbx")
    × (cut b'/' "ab/c/d" ≡ some ("ab", "c/d"))
    × (contains "abc" "bc" ≡ true)
unfolding to_lower trim_space split replace_all cut contains
text_tests = (refl, refl, refl, refl, refl, refl)

-- The lines of a text, each with its line break.
unfoldable pub unlines : List String → String
unlines List.[] = ""
unlines (List.◌∷◌ l ls) = l ++ ("\n" ++ unlines ls)
