-- ===== src/Spark/Inline.antt =====
-- Texts inlined into SQL.
use mobility_api.Base.{String, ◌≡◌, refl, [], ◌∷◌}
use mobility_api.Base.Text.{replace_all}
use mobility_api.Base.Float.{Float}
use mobility_api.Base.Json.{Json}
use mobility_api.Backend.{text}
use mobility_api.Spark.{inline_params}

-- A text argument that has the first placeholder in it is read again once it is inlined: the argument
-- of the first placeholder lands inside the second one's literal.
inlined_twice :
    (format_float : Float → String) (marshal : Json → String)
    → inline_params format_float marshal "INSERT VALUES ($1,$2)" (text "a" ∷ text "$1" ∷ [])
      ≡ "INSERT VALUES ('a',''a'')"
unfolding inline_params replace_all
inlined_twice format_float marshal = refl
