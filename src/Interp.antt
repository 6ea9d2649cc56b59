-- ===== src/Interp.antt =====
-- main.go: the interpolation tokens of the standard against those of MobilityDB.
pub mod Answers
use Prim.Native.Char.{code}
use Prim.Native.String.{◌++◌}
use mobility_api.Base.{
  String, List, [], ◌∷◌, Option, none, some, lookup, any, eqb, ◌||◌, ◌==◌, if◌then◌else◌,
}
use mobility_api.Http.{Result, ok, err, status_err}

ogc_to_mdb : List (String × String)
ogc_to_mdb = ("Linear", "Linear") ∷ ("Step", "Step") ∷ ("Discrete", "Discrete") ∷ []

ogc_only : List String
ogc_only = "Quadratic" ∷ "Cubic" ∷ "Regression" ∷ []

-- The text between double quotes, as `%q` writes it for printable characters.
escape : String → String
escape String.[] = ""
escape (String.◌∷◌ c s) =
    let rest = String.◌∷◌ c (escape s) in
    if eqb (code c) b'"' || eqb (code c) b'\\' then "\\" ++ rest else rest

unfoldable pub quote : String → String
unfolding escape
quote s = "\"" ++ (escape s ++ "\"")

unfoldable pub mdb_interp : String → Result String
unfolding ogc_to_mdb ogc_only
mdb_interp s = elim (lookup s ogc_to_mdb) [
  | some m ↦ ok m
  | none ↦
      if any (λ k. k == s) ogc_only
      then err (
          status_err 501 (
            "interpolation "
            ++ (quote s
                ++ " is not carried by MobilityDB; this tier serves Discrete, Step and Linear")))
      else err (
          status_err 400 (
            "interpolation "
            ++ (quote s
                ++ " is not one the standard names; a temporal geometry takes Discrete, Step, Linear, Quadratic or Cubic, and a temporal property value takes Discrete, Step, Linear or Regression")))
]
