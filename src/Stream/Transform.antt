-- ===== src/Stream/Transform.antt =====
-- stream_engine_meos.go: runTransform, instantUnix, and the run of a query on its thread.

use mobility_api.Base.{
  ℕ, String, Bool, true, false, List, [], ◌∷◌, Option, none, some, map, ◌==◌, if◌then◌else◌,
}
use mobility_api.Base.Text.{is_nil}
use mobility_api.Base.Int.{ℤ, pos}
use mobility_api.Base.Float.{Float}
use mobility_api.Base.Json.{Json, str, num, object}
use mobility_api.Base.Time.{ZoneForm, short, z_colon, parse_time}
use mobility_api.Base.Time.Print.{unix_time}
use mobility_api.Http.{Result, ok, err}
use mobility_api.Stream.{Instant, QuerySpec, Window}
use mobility_api.Stream.Windows.{Signal, next, cancelled, WindowEvent, run_aggregate}
use mobility_api.Stream.Hopping.{run_hopping}
use mobility_api.Stream.Meos.{Meos, lift_instant}
use mobility_api.Stream.Aggregates.{window_aggregate}
use mobility_api.Stream.Engines.{arg_of}

-- The layouts that instantUnix tries, the second of them the first again.
abbrev unix_layouts : List (Bool × ZoneForm)
unix_layouts = (true, z_colon) ∷ (true, z_colon) ∷ (false, z_colon) ∷ (false, short) ∷ []

or_index : List (Bool × ZoneForm) → String → ℕ → ℤ
or_index [] s idx = pos idx
or_index (l ∷ layouts) s idx =
    let rest = or_index layouts s idx in
    elim (parse_time l.0 l.1 s) [ none ↦ rest | some m ↦ unix_time m ]

unfoldable pub instant_unix : Instant → ℕ → ℤ
unfolding or_index
instant_unix i idx = or_index unix_layouts i.t idx

unfoldable pub transform_event : QuerySpec → Instant → Json
transform_event spec out = object (
    ("datetime", str out.t)
    ∷ ("value", num out.v)
    ∷ ("property", str spec.pname)
    ∷ ("operation", str spec.op)
    ∷ [])

-- An error ends the run; an event stands in front of the later ones.
unfoldable emit_lifted : QuerySpec → Result Instant → List Json × String → List Json × String
unfolding transform_event
emit_lifted spec (err e) later = ([], "failed")
emit_lifted spec (ok out) later = (transform_event spec out ∷ later.0, later.1)

unfoldable pub run_transform :
    (Instant → Result Instant) → QuerySpec → List Signal → List Json × String
unfolding emit_lifted
run_transform lift spec [] = ([], "stopped")
run_transform lift spec (cancelled ∷ rest) = ([], "stopped")
run_transform lift spec (next i ∷ rest) = emit_lifted spec (lift i) (run_transform lift spec rest)

window_json : QuerySpec → WindowEvent → Json
window_json spec e = object (
    ("windowStart", str e.window_start)
    ∷ ("windowEnd", str e.window_end)
    ∷ ("property", str spec.pname)
    ∷ ("aggregation", str spec.agg)
    ∷ ("value", e.value)
    ∷ ("count", num (Float.dec false e.count 0 0))
    ∷ [])

-- The window of the specification, whose fields are zero where the request gives none.
window_or_zero : Option Window → Window
window_or_zero none = record { kind = ""; size = pos 0; unit = ""; hop = pos 0; hop_unit = "" }
window_or_zero (some w) = w

module _ {T : Type 0} (m : Meos T) where
  windowed : QuerySpec → List Signal → Window → List WindowEvent × String
  windowed spec signals w =
      if w.kind == "HOPPING"
      then run_hopping w instant_unix (window_aggregate m spec.ptype spec.agg) signals
      else run_aggregate w instant_unix (window_aggregate m spec.ptype spec.agg) signals

  in_windows : QuerySpec → List Signal → Option Window → List Json × String
  unfolding windowed window_json window_or_zero
  in_windows spec signals w =
      let r = windowed spec signals (window_or_zero w) in (map (window_json spec) r.0, r.1)

  -- meosHandle.run
  unfoldable pub meos_run : QuerySpec → List Signal → List Json × String
  unfolding in_windows
  meos_run spec signals =
      if is_nil spec.agg
      then run_transform (lift_instant m spec.op (arg_of spec.arg)) spec signals
      else in_windows spec signals spec.window
