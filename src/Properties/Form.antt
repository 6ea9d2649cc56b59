-- ===== src/Properties/Form.antt =====
-- main.go: the unit of measure of a temporal property. An absolute URI is what url.Parse gives a
-- scheme; of its checks the model leaves out those on a user's name, on an IP address in brackets
-- and on the escapes of a host.
use Prim.Native.Char.{code}
use Prim.Native.String.{len}
use mobility_api.Base.{
  ℕ, String, ◌≡◌, refl, Bool, true, false, ◌&&◌, ◌||◌, not, Option, none, some, eqb, ltb,
  if◌then◌else◌,
}
use text.Mathlib.Text.{starts_with}
use mobility_api.Base.Text.{is_nil, is_digit, between, all_codes, cut}
use mobility_api.Base.Json.{Json, member, str_of}

-- The unit under either spelling.
unfoldable pub prop_form : Json → String
prop_form p =
    if is_nil (str_of (member "form" p))
    then str_of (member "unitOfMeasure" p)
    else str_of (member "form" p)

is_letter : ℕ → Bool
is_letter c = between b'a' b'z' c || between b'A' b'Z' c

is_scheme_char : ℕ → Bool
unfolding is_letter
is_scheme_char c = is_letter c || (is_digit c || (eqb c b'+' || (eqb c b'-' || eqb c b'.')))

is_hex : ℕ → Bool
is_hex c = is_digit c || (between b'a' b'f' c || between b'A' b'F' c)

-- Each percent sign stands before two hexadecimal digits.
escapes_ok : String → Bool
escapes_ok String.[] = true
escapes_ok (String.◌∷◌ c String.[]) = not (eqb (code c) b'%')
escapes_ok (String.◌∷◌ c (String.◌∷◌ d String.[])) =
    not (eqb (code c) b'%') && not (eqb (code d) b'%')
escapes_ok (String.◌∷◌ c (String.◌∷◌ d (String.◌∷◌ e s))) =
    let rest = escapes_ok (String.◌∷◌ d (String.◌∷◌ e s)) in
    (not (eqb (code c) b'%') || (is_hex (code d) && is_hex (code e))) && rest

-- What follows the last `d`.
after_last : ℕ → String → Option String
after_last d String.[] = none
after_last d (String.◌∷◌ c s) = elim (after_last d s) [
  | some t ↦ some t
  | none ↦ if eqb (code c) d then some s else none
]

-- The text before the first `d`, and what follows it.
cut_at : ℕ → String → String × String
cut_at d s = elim (cut d s) [ none ↦ (s, "") | some p ↦ p ]

contains_code : ℕ → String → Bool
contains_code d String.[] = false
contains_code d (String.◌∷◌ c s) = eqb (code c) d || contains_code d s

-- A character that a host has unescaped; one outside ASCII is left as it is.
is_host_char : ℕ → Bool
unfolding is_letter contains_code
is_host_char c =
    is_letter c || (is_digit c || (not (ltb c 128) || contains_code c "-_.~!$&'()*+,;=:[]<>\"%"))

-- Of an authority, the host and its port: the digits behind the last colon.
host_ok : String → Bool
unfolding after_last is_host_char
host_ok s =
    let port : String = elim (after_last b':' s) [ none ↦ "" | some t ↦ t ] in
    starts_with s "[" || (all_codes is_digit port && all_codes is_host_char s)

-- The host is what follows the user.
authority_ok : String → Bool
unfolding after_last host_ok
authority_ok s = elim (after_last b'@' s) [ none ↦ host_ok s | some t ↦ host_ok t ]

-- What follows the colon of the scheme, up to the query: an authority after two slashes, and a
-- path. Without a slash it is opaque.
hierarchy_ok : String → Bool
unfolding escapes_ok authority_ok cut_at
hierarchy_ok (String.◌∷◌ a (String.◌∷◌ b s)) =
    if eqb (code a) b'/'
    then (if eqb (code b) b'/'
        then escapes_ok s && authority_ok (cut_at b'/' s).0
        else escapes_ok (String.◌∷◌ b s))
    else true
hierarchy_ok _ = true

-- What follows the first character of a scheme: its end is the colon.
after_scheme : String → Bool
after_scheme String.[] = false
after_scheme (String.◌∷◌ c s) =
    let rest = after_scheme s in
    if eqb (code c) b':' then hierarchy_ok (cut_at b'?' s).0 else is_scheme_char (code c) && rest

is_printable : ℕ → Bool
is_printable c = not (ltb c 32) && not (eqb c 127)

has_scheme : String → Bool
unfolding is_letter after_scheme
has_scheme String.[] = false
has_scheme (String.◌∷◌ c s) = is_letter (code c) && after_scheme s

-- url.Parse succeeds, and the URL is absolute.
is_absolute : String → Bool
unfolding cut_at escapes_ok is_printable has_scheme after_scheme hierarchy_ok authority_ok host_ok
    is_host_char after_last contains_code is_scheme_char is_letter is_hex
is_absolute s =
    let (u, fragment) = cut_at b'#' s in
    all_codes is_printable u && (escapes_ok fragment && has_scheme u)

unfoldable pub conformant_form : String → Bool
unfolding is_absolute
conformant_form uom = is_nil uom || (eqb (len uom) 3 || is_absolute uom)

form_tests :
    (conformant_form "http://www.opengis.net/def/uom/UCUM/0/m" ≡ true)
    × (conformant_form "KMH" ≡ true)
    × (conformant_form "m" ≡ false)
    × (conformant_form "km/h" ≡ false)
    × (conformant_form "http://a b/m" ≡ false)
    × (conformant_form "http://localhost:8080/uom?x=%zz#m" ≡ true)
    × (conformant_form "http://localhost:port/uom" ≡ false)
    × (conformant_form "urn:ogc:def:uom:UCUM::m" ≡ true)
unfolding conformant_form cut
form_tests = (refl, refl, refl, refl, refl, refl, refl, refl)
