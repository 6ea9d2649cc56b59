-- ===== src/PropType/Tokens.antt =====
-- Which type a token stands for, and what becomes of the type of a stored property.
use mathlib.Core.Option
use mobility_api.Base.{String, ◌≡◌, ◌⊎◌, arith, All, All-lookup, some}
use mobility_api.Base.Text.{trim_space}
use mobility_api.PropType.{TType, tprop_tokens, tprop_type}

-- The type is read back as it was stored, or it is the wide integer, whose column is then another.
abbrev pub ReadsBack : TType → Type 0
ReadsBack tt =
    (tprop_type tt.ogc ≡ some tt)
    ⊎ ((tt.cast ≡ "tbigint")
        × (tt.col ≡ "vbigint")
        × (Option.map (λ u. u.col) (tprop_type tt.ogc) ≡ some "vint"))

tprop_tokens-ReadsBack : All (λ e. ReadsBack e.1) tprop_tokens
unfolding tprop_type tprop_tokens trim_space
tprop_tokens-ReadsBack = ground arith

-- A property is stored under the token of its type, and a later request resolves that token. The
-- type that it gets is the one that was stored, except for the wide integer: its values lie in the
-- column vbigint, and the later request reads the column vint.
pub tprop_type-ReadsBack : (t : String) {tt : TType} → tprop_type t ≡ some tt → ReadsBack tt
unfolding tprop_type
tprop_type-ReadsBack t h = All-lookup ReadsBack _ tprop_tokens tprop_tokens-ReadsBack h
