-- ===== src/Base/Json.antt =====
-- Decoded JSON: the values that encoding/json gives for `any`, and the reads of them.
use Prim.Native.Nat.{ℕ, suc, max, ◌<◌, ◌≤◌}
use Prim.Native.String.{String}
use mathlib.Core.Path.{◌≡◌}
use native.Mathlib.Omega.{arith}
use mathlib.Core.Bool.{Bool, true}
use mathlib.Core.List.{List, [], ◌∷◌}
use mathlib.Core.Option.{Option, none, some}
use text.Mathlib.Text.{◌==◌}
use mobility_api.Base.Tests.{if◌then◌else◌}
use mobility_api.Base.Float.{Float}

mutual
  pub data Json : Type 0 where
    null : Json
    bool : Bool → Json
    num : Float → Json
    str : String → Json
    arr : Items → Json
    obj : Fields → Json

  pub data Items : Type 0 where
    nil : Items
    cons : Json → Items → Items

  pub data Fields : Type 0 where
    end : Fields
    field : String → Json → Fields → Fields

abbrev pub items : List Json → Items
items [] = nil
items (x ∷ xs) = cons x (items xs)

abbrev pub fields : List (String × Json) → Fields
fields [] = end
fields ((k, v) ∷ m) = field k v (fields m)

abbrev pub object : List (String × Json) → Json
object m = obj (fields m)

abbrev pub array : List Json → Json
array xs = arr (items xs)

abbrev pub to_list : Items → List Json
to_list nil = []
to_list (cons x xs) = x ∷ to_list xs

abbrev pub find : String → Fields → Json
find k end = null
find k (field j v m) = if j == k then v else find k m

-- m[k] on a map[string]any, where a missing key and a value of another type read as nil.
abbrev pub member : String → Json → Json
member k (obj m) = find k m
member k _ = null

-- v.(string), v.([]any) and v.(map[string]any), with the success flag.
abbrev as_str : Json → Option String
as_str (str s) = some s
as_str _ = none

abbrev pub as_arr : Json → Option (List Json)
as_arr (arr xs) = some (to_list xs)
as_arr _ = none

abbrev pub is_obj : Json → Bool
is_obj (obj m) = true
is_obj _ = Bool.false

abbrev pub is_null : Json → Bool
is_null null = true
is_null _ = Bool.false

-- The string, or the empty one for any other value.
abbrev pub str_of : Json → String
str_of (str s) = s
str_of _ = ""

-- The elements, or none for any other value.
abbrev pub arr_of : Json → List Json
arr_of (arr xs) = to_list xs
arr_of _ = []

-- The nesting depth of a value.
unfoldable mutual
  pub depth : Json → ℕ
  depth (arr xs) = suc (depth_items xs)
  depth (obj m) = suc (depth_fields m)
  depth null = 0
  depth (bool b) = 0
  depth (num x) = 0
  depth (str s) = 0

  depth_items : Items → ℕ
  depth_items nil = 0
  depth_items (cons x xs) = max (depth x) (depth_items xs)

  depth_fields : Fields → ℕ
  depth_fields end = 0
  depth_fields (field k v m) = max (depth v) (depth_fields m)

depth-find-le : (k : String) (m : Fields) → depth (find k m) ≤ depth_fields m
unfolding depth depth_fields
depth-find-le k end = omega arith
depth-find-le k (field j v m) = ground (arith, depth-find-le k m)

pub depth-member-le : (k : String) (v : Json) → depth (member k v) ≤ depth v
unfolding depth
depth-member-le k (obj m) = omega (arith, depth-find-le k m)
depth-member-le k _ = omega arith

pub depth-lt_of_as_arr :
    (v x : Json) (xs : List Json) → as_arr v ≡ some (x ∷ xs) → depth x < depth v
unfolding depth depth_items
depth-lt_of_as_arr (arr (cons y ys)) x xs h =
    let same : y ≡ x = ground arith in rw (← same) (omega arith)
depth-lt_of_as_arr _ x xs h = absurd (cc)
