-- ===== src/PropType.antt =====
-- main.go: the scalar temporal types that a stored property may have, and the tokens for them.
pub mod Tokens
use Prim.Native.String
use Prim.Native.String.{String}
use mobility_api.Base.{
  Bool, true, false, ◌||◌, not, List, [], ◌∷◌, ◌++◌, map, Option, none, some, lookup, is_some, ◌==◌,
  if◌then◌else◌,
}
use mobility_api.Base.Text.{to_lower, trim_space, is_nil}
use mobility_api.Catalog.{TemporalType, temporal_types}

-- How a scalar temporal property is carried: the MF-JSON token, the column, the type to cast to, the
-- token of the standard, and the interpolation that a body without one has.
pub record TType : Type 0 where
  pub mf : String
  pub col : String
  pub cast : String
  pub ogc : String
  pub def_interp : String

abbrev ogc_scalar : List (String × (String × String))
ogc_scalar =
    ("bool", ("TBoolean", "Step"))
    ∷ ("int4", ("TInteger", "Step"))
    ∷ ("int8", ("TInteger", "Step"))
    ∷ ("float8", ("TReal", "Linear"))
    ∷ ("text", ("TText", "Discrete"))
    ∷ []

abbrev tprop_alias : List (String × String)
tprop_alias =
    ("", "tfloat")
    ∷ ("measure", "tfloat")
    ∷ ("real", "tfloat")
    ∷ ("float", "tfloat")
    ∷ ("double", "tfloat")
    ∷ ("number", "tfloat")
    ∷ ("integer", "tint")
    ∷ ("int", "tint")
    ∷ ("bigint", "tbigint")
    ∷ ("long", "tbigint")
    ∷ ("tstring", "ttext")
    ∷ ("text", "ttext")
    ∷ ("string", "ttext")
    ∷ ("boolean", "tbool")
    ∷ ("bool", "tbool")
    ∷ []

-- strings.TrimPrefix(name, "t")
trim_t : String → String
trim_t String.[] = ""
trim_t (String.◌∷◌ c s) = if String.◌∷◌ c String.[] == "t" then s else String.◌∷◌ c s

tprop_column : String → String
unfolding trim_t
tprop_column name = String.◌++◌ "v" (trim_t name)

abbrev scalar_entry : TemporalType → Option (String × String) → List (String × TType)
scalar_entry t none = []
scalar_entry t (some (token, interp)) =
    (
      t.name,
      record {
        mf = t.mfjson;
        col = tprop_column t.name;
        cast = t.name;
        ogc = token;
        def_interp = interp;
      },
    )
    ∷ []

scalars_of : List TemporalType → List (String × TType)
scalars_of [] = []
scalars_of (t ∷ ts) =
    (if t.spatial || is_nil t.mfjson then [] else scalar_entry t (lookup t.base ogc_scalar))
    ++ scalars_of ts

unfoldable pub scalar_temporal_types : List (String × TType)
unfolding scalars_of tprop_column
scalar_temporal_types = scalars_of temporal_types

abbrev ogc_canonical : List (String × String)
ogc_canonical = ("TInteger", "tint") ∷ []

-- The types that carry a token of the standard.
carriers : String → List (String × TType) → List String
carriers token [] = []
carriers token ((name, tt) ∷ m) =
    if tt.ogc == token then name ∷ carriers token m else carriers token m

-- The one type that a token stands for: its only carrier, or the one that ogcCanonical names.
owner : String → List String → String
owner token (name ∷ []) = name
owner token _ = elim (lookup token ogc_canonical) [ none ↦ "" | some name ↦ name ]

abbrev entry_of : String → Option TType → List (String × TType)
entry_of key none = []
entry_of key (some tt) = (key, tt) ∷ []

module _ (types : List (String × TType)) where
  token_entries : List (String × TType) → List (String × TType)
  token_entries [] = []
  token_entries ((name, tt) ∷ m) =
      entry_of (to_lower tt.ogc) (lookup (owner tt.ogc (carriers tt.ogc types)) types)
      ++ token_entries m

  alias_entries : List (String × String) → List (String × TType)
  alias_entries [] = []
  alias_entries ((alias, name) ∷ m) = entry_of alias (lookup name types) ++ alias_entries m

-- Later writes to the map win: the aliases, then the tokens, then the names.
unfoldable pub tprop_tokens : List (String × TType)
unfolding alias_entries token_entries carriers owner to_lower scalar_temporal_types
tprop_tokens =
    alias_entries scalar_temporal_types tprop_alias
    ++ (token_entries scalar_temporal_types scalar_temporal_types ++ scalar_temporal_types)

unfoldable pub tprop_type : String → Option TType
tprop_type t = lookup (to_lower (trim_space t)) tprop_tokens
