-- ===== src/Ogcify.antt =====
-- main.go: the rewriting of what MobilityDB writes into what the standard names. The source rewrites
-- the text of a document; the model rewrites each string of the tree, where the end of the string
-- is the closing quote that the expressions look for.
pub mod Kept
use Prim.Native.Char.{code}
use Prim.Native.Nat.{pred}
use Prim.Native.String.{count, ◌++◌}
use mobility_api.Base.{
  ℕ, zero, suc, String, ◌≡◌, refl, Bool, true, ◌&&◌, ◌||◌, List, [], ◌∷◌, Option, none, some, eqb,
  ◌==◌, if◌then◌else◌,
}
use mobility_api.Base.Text.{is_digit, is_nil, between, take_digits}
use mobility_api.Base.Json.{
  Json, Items, Fields, null, bool, num, str, arr, obj, nil, cons, end, field,
}

-- The characters that pass the tests in turn, and the rest.
take_classes : List (ℕ → Bool) → String → Option (String × String)
take_classes [] s = some ("", s)
take_classes (p ∷ ps) String.[] = none
take_classes (p ∷ ps) (String.◌∷◌ c s) =
    let rest = take_classes ps s in
    if p (code c) then elim rest [ none ↦ none | some r ↦ some (String.◌∷◌ c r.0, r.1) ] else none

is_colon : ℕ → Bool
is_colon c = eqb c b':'

is_sign : ℕ → Bool
is_sign c = eqb c b'+' || eqb c b'-'

-- \d\d:\d\d:\d\d
take_time : String → Option (String × String)
unfolding take_classes is_colon
take_time =
    take_classes
      (is_digit ∷ is_digit ∷ is_colon ∷ is_digit ∷ is_digit ∷ is_colon ∷ is_digit ∷ is_digit ∷ [])

-- (?:\.\d+)?
take_fraction : String → String × String
take_fraction String.[] = ("", "")
take_fraction (String.◌∷◌ c s) =
    let (ds, rest) = take_digits s in
    if eqb (code c) b'.'
    then (if is_nil ds then ("", String.◌∷◌ c s) else (String.◌∷◌ c ds, rest))
    else ("", String.◌∷◌ c s)

-- (["\s]|$)
at_end : String → Bool
at_end String.[] = true
at_end (String.◌∷◌ c s) =
    eqb (code c) b'"' || (eqb (code c) 32 || (between 9 10 (code c) || between 12 13 (code c)))

offset_from : String → String × String → Option String
unfolding take_classes is_sign at_end
offset_from time (part, s) = elim (take_classes (is_sign ∷ is_digit ∷ is_digit ∷ []) s) [
  | none ↦ none
  | some r ↦ if at_end r.1 then some (time ++ (part ++ r.0)) else none
]

-- The time of day with an hour-only offset that the text begins with.
hour_only : String → Option String
unfolding take_time take_fraction offset_from
hour_only s = elim (take_time s) [ none ↦ none | some r ↦ offset_from r.0 (take_fraction r.1) ]

-- The number counts the characters to skip.
complete_from : ℕ → String → String
complete_from k String.[] = ""
complete_from (suc k) (String.◌∷◌ c s) = complete_from k s
complete_from zero (String.◌∷◌ c s) =
    let miss = String.◌∷◌ c (complete_from zero s) in
    elim (hour_only (String.◌∷◌ c s)) [
      | none ↦ miss
      | some found ↦ found ++ (":00" ++ complete_from (pred (count found)) s)
    ]

unfoldable pub rfc3339_tz : String → String
unfolding complete_from hour_only
rfc3339_tz s = complete_from zero s

-- "EPSG:" and digits, to the URN of the reference system.
name_urn : String → Option (String × String) → String
name_urn s none = s
name_urn s (some (head, rest)) =
    let (ds, tail) = take_digits rest in
    if head == "EPSG:" && is_nil tail
    then (if is_nil ds then s else "urn:ogc:def:crs:EPSG::" ++ ds)
    else s

any_char : ℕ → Bool
any_char c = true

crs_name : String → String
unfolding name_urn take_classes any_char
crs_name s = name_urn s (take_classes (any_char ∷ any_char ∷ any_char ∷ any_char ∷ any_char ∷ []) s)

abbrev crs_value : Json → Json
crs_value (str s) = str (crs_name s)
crs_value v = v

unfoldable mutual
  unfolding rfc3339_tz crs_name

  pub ogcify : Json → Json
  ogcify (str s) = str (rfc3339_tz s)
  ogcify (arr xs) = arr (ogcify_items xs)
  ogcify (obj m) = obj (ogcify_fields m)
  ogcify null = null
  ogcify (bool b) = bool b
  ogcify (num x) = num x

  ogcify_items : Items → Items
  ogcify_items nil = nil
  ogcify_items (cons x xs) = cons (ogcify x) (ogcify_items xs)

  ogcify_fields : Fields → Fields
  ogcify_fields end = end
  ogcify_fields (field k v m) =
      field k (if k == "name" then crs_value (ogcify v) else ogcify v) (ogcify_fields m)

ogcify_tests :
    (rfc3339_tz "2011-06-01 18:57:52.5+00" ≡ "2011-06-01 18:57:52.5+00:00")
    × (rfc3339_tz "18:57:52+02:00" ≡ "18:57:52+02:00")
    × (ogcify (obj (field "name" (str "EPSG:4326") end))
        ≡ obj (field "name" (str "urn:ogc:def:crs:EPSG::4326") end))
unfolding rfc3339_tz ogcify take_digits
ogcify_tests = (refl, refl, refl)
