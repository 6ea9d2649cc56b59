-- ===== src/Timestamp.antt =====
-- timestamp.go: a timestamp that a backend returns as text, in the form of RFC 3339.
pub mod Postgres
pub mod Rendered
use mobility_api.Base.{
  String, ◌≡◌, refl, true, false, List, [], ◌∷◌, Option, none, some, Bool, if◌then◌else◌,
}
use mobility_api.Base.Text.{is_nil}
use mobility_api.Base.Time.{Moment, ZoneForm, short, colon, z_colon, parse_time}
use mobility_api.Base.Time.Print.{format_time}

-- pgTimestampLayouts: whether the separator is a T, and the form of the zone.
abbrev pub pg_timestamp_layouts : List (Bool × ZoneForm)
pg_timestamp_layouts =
    (false, short)
    ∷ (false, colon)
    ∷ (true, short)
    ∷ (true, colon)
    ∷ (false, z_colon)
    ∷ (true, z_colon)
    ∷ []

or_next : Option Moment → String → String
or_next none rest = rest
or_next (some m) rest = format_time m

-- The first of the layouts that the text parses by.
unfoldable pub render : List (Bool × ZoneForm) → String → String
unfolding or_next
render [] s = s
render (l ∷ layouts) s = or_next (parse_time l.0 l.1 s) (render layouts s)

unfoldable pub rfc3339 : String → String
rfc3339 s = if is_nil s then s else render pg_timestamp_layouts s
