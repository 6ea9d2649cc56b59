-- ===== src/Codegen.antt =====
-- tools/codegen/main.go: the generator of catalog_gen.go and mathops_meos_gen.go. The catalog is given
-- decoded; format.Source of the standard library is a parameter.
pub mod Selected
pub mod Templates
pub mod Generate
pub mod Written
use Prim.Native.String.{◌++◌}
use mathlib.Core.List
use mobility_api.Base.{
  ℕ, suc, String, Bool, true, false, not, ◌&&◌, ◌||◌, List, [], ◌∷◌, Option, none, some, any,
  lookup, is_some, ◌==◌, if◌then◌else◌,
}
use mobility_api.Base.Text.{cut, contains, is_nil}
use mobility_api.Http.{Result, ok, err, failed}
use mobility_api.Interp.{quote}
use mobility_api.Stream.{text_le}

pub record Param : Type 0 where
  pub name : String
  pub ctype : String
  pub canonical : String

pub record Function : Type 0 where
  pub name : String
  pub group : String
  pub category : String
  pub sql_name : String
  pub params : List Param
  pub returns : String

pub record MathOperation : Type 0 where
  pub sql_name : String
  pub symbol : String
  pub arg : String
  pub arg_canonical : String

unfoldable pub math_groups : List String
math_groups = "meos_temporal_math" ∷ "meos_temporal_transf" ∷ []

unfoldable pub math_prefixes : List String
math_prefixes = "tfloat" ∷ "tnumber" ∷ "temporal" ∷ []

unfoldable pub arg_conversions : List (String × String)
arg_conversions =
    ("", "") ∷ ("double", "C.double(arg)") ∷ ("int", "C.int(arg)") ∷ ("bool", "arg != 0") ∷ []

unfoldable arg_unfillable : List (String × String)
arg_unfillable =
    ("const Interval *", "an interval is a duration, not a single number")
    ∷ ("interpType", "an interpolation is an enumeration, not a number")
    ∷ []

-- The first part of a name that is split at its underscores.
unfoldable pub first_token : String → Option (String × String) → String
first_token s none = s
first_token s (some (head, rest)) = head

unfoldable pub ends_with : String → String → Bool
ends_with String.[] t = is_nil t
ends_with (String.◌∷◌ c s) t = (String.◌∷◌ c s == t) || ends_with s t

unfoldable pub is_temporal : String → Bool
is_temporal ctype = contains ctype "Temporal *"

unfoldable pub one_of : List String → String → Bool
one_of names s = any (λ n. n == s) names

-- Whether the further parameters leave the function one of a temporal number and at most a value.
unfoldable pub has_few : List Param → Bool
has_few [] = true
has_few (p ∷ []) = not (is_temporal p.ctype)
has_few (p ∷ q ∷ ps) = false

unfoldable pub takes_number : List Param → Bool
takes_number [] = false
takes_number (p ∷ ps) = is_temporal p.ctype && has_few ps

-- The guards of the loop.
unfoldable pub is_selected : Function → Bool
unfolding math_groups math_prefixes first_token ends_with is_temporal one_of has_few takes_number
is_selected f =
    one_of math_groups f.group
    && ((f.category == "transformation")
        && (not (is_nil f.sql_name)
            && (is_temporal f.returns
                && (takes_number f.params
                    && (one_of math_prefixes (first_token f.name (cut b'_' f.name))
                        || ends_with f.name "_tfloat_float")))))

unfoldable pub is_known : String → Bool
unfolding arg_conversions arg_unfillable
is_known canonical =
    is_some (lookup canonical arg_conversions) || is_some (lookup canonical arg_unfillable)

unfoldable pub with_arg : Function → Param → Result MathOperation
unfolding is_known
with_arg f p =
    if is_nil p.canonical
    then err (
        failed (
          f.name
          ++ (": the parameter "
              ++ (p.name
                  ++ " carries no canonical spelling, so its type cannot be read from the catalog"))))
    else if is_known p.canonical
    then ok record {
      sql_name = f.sql_name;
      symbol = f.name;
      arg = p.ctype;
      arg_canonical = p.canonical;
    }
    else err (
        failed (
          f.name
          ++ (": the parameter "
              ++ (p.name
                  ++ (" has the type "
                      ++ (quote p.canonical
                          ++ ", which is neither filled from a query value (argConversions) nor stated as one a query value cannot fill (argUnfillable)"))))))

-- The operation of a selected function; its first parameter is the temporal number.
unfoldable pub operation : Function → List Param → Result MathOperation
unfolding with_arg
operation f (number ∷ p ∷ rest) = with_arg f p
operation f _ = ok record { sql_name = f.sql_name; symbol = f.name; arg = ""; arg_canonical = "" }

unfoldable pub in_front :
    Result MathOperation → Result (List MathOperation) → Result (List MathOperation)
in_front (err e) later = err e
in_front (ok op) (err e) = err e
in_front (ok op) (ok ops) = ok (op ∷ ops)

-- The loop over the functions, up to the first that is refused.
unfoldable pub selected : List Function → Result (List MathOperation)
unfolding in_front operation is_selected
selected [] = ok []
selected (f ∷ fs) =
    let later = selected fs in
    if is_selected f then in_front (operation f f.params) later else later

-- Not after: by the SQL name, then by the symbol.
unfoldable pub op_le : MathOperation → MathOperation → Bool
unfolding text_le
op_le a b =
    if a.sql_name == b.sql_name then text_le a.symbol b.symbol else text_le a.sql_name b.sql_name

-- sort.Slice and sort.Strings
module _ {A : Type 0} (le : A → A → Bool) where
  unfoldable pub insert : A → List A → List A
  insert a [] = a ∷ []
  insert a (b ∷ bs) = let rest = insert a bs in if le a b then a ∷ b ∷ bs else b ∷ rest

  unfoldable pub sort : List A → List A
  unfolding insert
  sort [] = []
  sort (a ∷ bs) = insert a (sort bs)

unfoldable pub sorted_ops : Result (List MathOperation) → Result (List MathOperation)
unfolding sort op_le
sorted_ops (err e) = err e
sorted_ops (ok ops) = ok (sort op_le ops)

-- mathOperations
unfoldable pub math_operations : List Function → Result (List MathOperation)
unfolding selected sorted_ops
math_operations fs = sorted_ops (selected fs)
