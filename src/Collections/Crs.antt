-- ===== src/Collections/Crs.antt =====
-- main.go: the EPSG code of a body's crs member, which is kept as its JSON text.
use Prim.Native.Char.{code}
use mobility_api.Base.{ℕ, String, ◌≡◌, refl, Bool, ◌||◌, Option, none, some, eqb, if◌then◌else◌}
use mobility_api.Base.Text.{is_nil, take_digits, trim}
use mobility_api.Base.Int.{ℤ, pos, max_int64, atoi}

-- The text behind a literal that it begins with.
after_literal : String → String → Option String
after_literal String.[] s = some s
after_literal (String.◌∷◌ a p) String.[] = none
after_literal (String.◌∷◌ a p) (String.◌∷◌ c s) =
    if eqb (code a) (code c) then after_literal p s else none

digits_of : String → Option String
digits_of s = let (ds, rest) = take_digits s in if is_nil ds then none else some ds

-- What follows `EPSG/\d+/`: the digits are the code.
authority : String × String → Option String
authority (ds, rest) =
    if is_nil ds then none else elim (after_literal "/" rest) [ none ↦ none | some t ↦ digits_of t ]

uri_at : String → Option String
unfolding after_literal authority digits_of
uri_at s = elim (after_literal "EPSG/" s) [ none ↦ none | some t ↦ authority (take_digits t) ]

skip_colons : String → String
skip_colons String.[] = ""
skip_colons (String.◌∷◌ c s) = if eqb (code c) b':' then skip_colons s else String.◌∷◌ c s

-- EPSG:+(\d+)
urn_at : String → Option String
unfolding after_literal digits_of skip_colons
urn_at s = elim (after_literal "EPSG:" s) [ none ↦ none | some t ↦ digits_of (skip_colons t) ]

-- The leftmost place at which the expression matches.
leftmost : (String → Option String) → String → Option String
leftmost at String.[] = at String.[]
leftmost at (String.◌∷◌ c s) =
    let later = leftmost at s in elim (at (String.◌∷◌ c s)) [ none ↦ later | some ds ↦ some ds ]

unfoldable pub epsg_uri : String → Option String
unfolding uri_at leftmost
epsg_uri = leftmost uri_at

unfoldable pub epsg_urn : String → Option String
unfolding urn_at leftmost
epsg_urn = leftmost urn_at

-- n, _ := strconv.Atoi(ds): out of range, the value is the largest integer.
unfoldable pub atoi_or_max : String → ℤ
atoi_or_max ds = elim (atoi ds) [ none ↦ pos max_int64 | some n ↦ n ]

is_cutset : ℕ → Bool
is_cutset c = eqb c 32 || (eqb c 9 || (eqb c 10 || eqb c b'"'))

unfoldable pub crs_code : String → ℤ
unfolding is_cutset
crs_code s = elim (epsg_uri s) [
  | some ds ↦ atoi_or_max ds
  | none ↦ elim (epsg_urn s) [
    | some ds ↦ atoi_or_max ds
    | none ↦ elim (atoi (trim is_cutset s)) [ none ↦ pos 4326 | some n ↦ n ]
  ]
]

crs_tests :
    (crs_code "[\"http://www.opengis.net/def/crs/EPSG/0/25832\"]" ≡ pos 25832)
    × (crs_code "\"urn:ogc:def:crs:EPSG::3857\"" ≡ pos 3857)
    × (crs_code "4269" ≡ pos 4269)
    × (crs_code "" ≡ pos 4326)
unfolding crs_code epsg_uri epsg_urn atoi_or_max take_digits trim atoi
crs_tests = (refl, refl, refl, refl)
